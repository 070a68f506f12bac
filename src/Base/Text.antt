-- ===== src/Base/Text.antt =====
-- Texts: decimal numbers in messages, and Go's `map[string]string` as an association list.
use Prim.Native.Nat.{ℕ, zero, suc, ◌/◌, ◌%◌}
use Prim.Native.String.{String, ◌++◌ as ◌<>◌}
use mathlib.Core.Path.{◌≡◌, refl}
use mathlib.Core.Bool.{Bool, true, false}
use mathlib.Core.List.{List, [], ◌∷◌}
use mathlib.Core.Option.{Option, none, some}
use native.Mathlib.Omega.{arith}
use text.Mathlib.Text.{◌==◌ as str_eq}
use text.Mathlib.TextEquality.{eq_iff}
use entropyk.Base.Tests.{ltb, if◌then◌else◌}
use entropyk.Base.Int.{ℤ, pos, negsuc}

digit : ℕ → String
digit zero = "0"
digit (suc zero) = "1"
digit (suc (suc zero)) = "2"
digit (suc (suc (suc zero))) = "3"
digit (suc (suc (suc (suc zero)))) = "4"
digit (suc (suc (suc (suc (suc zero))))) = "5"
digit (suc (suc (suc (suc (suc (suc zero)))))) = "6"
digit (suc (suc (suc (suc (suc (suc (suc zero))))))) = "7"
digit (suc (suc (suc (suc (suc (suc (suc (suc zero)))))))) = "8"
digit _ = "9"

-- A number has fewer digits than one more than itself, so the fuel is enough.
decimal_fuel : ℕ → ℕ → String
decimal_fuel zero n = ""
decimal_fuel (suc f) n =
    let rest = decimal_fuel f (n / 10) in if ltb n 10 then digit n else rest <> digit (n % 10)

-- `%d`
unfoldable pub decimal : ℤ → String
unfolding decimal_fuel digit
decimal (pos n) = decimal_fuel (suc n) n
decimal (negsuc n) = "-" <> decimal_fuel (suc (suc n)) (suc n)

abbrev pub Dict : Type 0
Dict = List (String × String)

-- Go maps with string keys, as association lists.
module _ {V : Type 0} where
  unfoldable pub lookup : String → List (String × V) → Option V
  lookup key [] = none
  lookup key ((name, val) ∷ dict) = if str_eq name key then some val else lookup key dict

  -- `m[k] = v`
  unfoldable pub insert : String → V → List (String × V) → List (String × V)
  insert key val [] = (key, val) ∷ []
  insert key val ((name, old) ∷ dict) =
      if str_eq name key then (key, val) ∷ dict else (name, old) ∷ insert key val dict

  -- `delete(m, k)`
  unfoldable pub erase : String → List (String × V) → List (String × V)
  erase key [] = []
  erase key ((name, old) ∷ dict) =
      let rest = erase key dict in if str_eq name key then rest else (name, old) ∷ rest

  pub lookup-insert :
      (key other : String) (val : V) (dict : List (String × V))
      → lookup other (insert key val dict)
        ≡ (if str_eq key other then some val else lookup other dict)
  unfolding insert lookup
  lookup-insert key other val [] = refl
  lookup-insert key other val ((name, old) ∷ dict) =
      let rest = lookup-insert key other val dict in
      ground (arith, rest, eq_iff name key, eq_iff name other, eq_iff key other)

  pub lookup-erase :
      (key other : String) (dict : List (String × V))
      → lookup other (erase key dict) ≡ (if str_eq key other then none else lookup other dict)
  unfolding erase lookup
  lookup-erase key other [] = ground arith
  lookup-erase key other ((name, old) ∷ dict) =
      let rest = lookup-erase key other dict in
      ground (arith, rest, eq_iff name key, eq_iff name other, eq_iff key other)

-- `m[k]`, with the zero value on a missing key
unfoldable pub lookup_or_empty : String → Dict → String
lookup_or_empty k m = elim (lookup k m) [ none ↦ "" | some v ↦ v ]

-- `[]string` searched for a text, and with every copy of a text taken out
unfoldable pub contains : String → List String → Bool
contains k [] = false
contains k (x ∷ xs) = if str_eq x k then true else contains k xs

unfoldable pub remove : String → List String → List String
remove k [] = []
remove k (x ∷ xs) = let rest = remove k xs in if str_eq x k then rest else x ∷ rest

pub contains-remove : (k : String) (xs : List String) → contains k (remove k xs) ≡ false
unfolding contains remove
contains-remove k [] = refl
contains-remove k (x ∷ xs) = ground (arith, contains-remove k xs)
