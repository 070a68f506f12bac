-- ===== src/Runtime/Monad.antt =====
-- The monad of handlers. Its operations are shut: proofs go by the rules of Runtime/Keeps, or open
-- all of them by the name `monad`.
use entropyk.Base.{String, List, ◌∷◌, Bool, Option, none, some, ℕ, if◌then◌else◌}
use entropyk.Go.{Error, Result, ok, err, wrap}
use entropyk.Runtime.Effects.{Effect}

-- `log` holds the newest effect first.
pub record World (S : Type 0) : Type 0 where
  pub state : S
  pub log : List Effect

pub data Outcome (A : Type 0) : Type 0 where
  returned : A → Outcome A
  failed : Error → Outcome A
  panicked : Outcome A

abbrev pub Action : Type 0 → Type 0 → Type 0
Action S A = World S → Outcome A × World S

unfoldable pub pure : {S A : Type 0} → A → Action S A
pure a w = (returned a, w)

unfoldable pub raise : {S A : Type 0} → Error → Action S A
raise e w = (failed e, w)

unfoldable pub panic : {S A : Type 0} → Action S A
panic w = (panicked, w)

-- The result of a function that touches nothing.
unfoldable pub lift : {S A : Type 0} → Result A → Action S A
lift (ok a) w = (returned a, w)
lift (err e) w = (failed e, w)

abbrev pub outcome : {A : Type 0} → Result A → Outcome A
outcome (ok a) = returned a
outcome (err e) = failed e

-- A call that only asks: the surroundings may change meanwhile, the log does not.
unfoldable pub ask : {S A : Type 0} → (S → Result A × S) → Action S A
ask f w = let (r, s) = f w.state in (outcome r, record w { state = s })

-- What is done after each way in which a call can end.
abbrev pub follow :
    {S A B : Type 0}
    → (Error → Action S B)
    → (A → Action S B)
    → Outcome A × World S
    → Outcome B × World S
follow handler f (returned a, w) = f a w
follow handler f (failed e, w) = handler e w
follow handler f (panicked, w) = (panicked, w)

-- `if err != nil { … }`, where the error does not end the function
unfoldable pub on_error :
    {S A B : Type 0} → Action S A → (Error → Action S B) → (A → Action S B) → Action S B
on_error m handler f w = follow handler f (m w)

infixl 5 ◌>>=◌ ◌>>◌
unfoldable pub ◌>>=◌ : {S A B : Type 0} → Action S A → (A → Action S B) → Action S B
◌>>=◌ m f w = follow (λ e w'. (failed e, w')) f (m w)

abbrev pub ◌>>◌ : {S A B : Type 0} → Action S A → Action S B → Action S B
m >> k = m >>= λ _. k

-- `return fmt.Errorf("context: %w", err)` on an error
unfoldable pub wrapping : {S A : Type 0} → String → Action S A → Action S A
wrapping context m w =
    follow (λ e w'. (failed (wrap context e), w')) (λ a w'. (returned a, w')) (m w)

unfoldable pub emit : {S : Type 0} → Effect → Action S (Unit {0})
emit e w = (returned tt, record w { log = e ∷ w.log })

-- `*p`
unfoldable pub deref : {S A : Type 0} → Option A → Action S A
deref none w = (panicked, w)
deref (some a) w = (returned a, w)

-- `if test { … } else { … }`, and `if p == nil { … } else { … }` with `*p` at hand
unfoldable pub branch : {S A : Type 0} → Bool → Action S A → Action S A → Action S A
branch b x y w = if b then x w else y w

unfoldable pub unless_nil : {S A B : Type 0} → Option A → Action S B → (A → Action S B) → Action S B
unless_nil none x f w = x w
unless_nil (some a) x f w = f a w

-- One name for an `unfolding` line that opens every operation.
unfoldable pub monad : ℕ
unfolding pure raise panic lift ask on_error ◌>>=◌ wrapping emit deref branch unless_nil
monad = 0
