-- ===== src/Go.antt =====
-- Go's `(T, error)` pairs, the instants and durations of package time, and what package fmt makes
-- of an error.
use entropyk.Base.{ℕ, ◌/◌, ℤ, pos, negsuc, ◌+ℤ◌, ◌-ℤ◌, ◌*ℤ◌, String, ◌<>◌, Bool, true, false}

-- An `error`: its text, and whether `apierrors.IsNotFound` holds of it.
pub record Error : Type 0 where
  pub not_found : Bool
  pub text : String

-- `fmt.Errorf` without `%w`
abbrev pub errorf : String → Error
errorf message = record { not_found = false; text = message }

-- `fmt.Errorf("context: %w", err)`: the class of the error that is wrapped is kept
abbrev pub wrap : String → Error → Error
wrap context e = record { not_found = e.not_found; text = (context <> ": ") <> e.text }

pub data Result {ℓ} (T : Type ℓ) : Type ℓ where
  err : Error → Result T
  ok : T → Result T

-- What follows a call whose error, if it is not nil, is returned as it is.
abbrev pub ◌>>=◌ {ℓ κ} : {T : Type ℓ} {U : Type κ} → Result T → (T → Result U) → Result U
◌>>=◌ (err e) next = err e
◌>>=◌ (ok t) next = next t

abbrev pub ◌>>◌ {ℓ} : {U : Type ℓ} → Result (Unit {0}) → Result U → Result U
check >> next = check >>= λ _. next

infixl 5 ◌>>=◌ ◌>>◌
abbrev pub context {ℓ} : {A : Type ℓ} → String → Result A → Result A
context c (ok a) = ok a
context c (err e) = err (wrap c e)

-- `if test { return err }`
abbrev pub fail_if : Bool → String → Result (Unit {0})
fail_if true message = err (errorf message)
fail_if false message = ok tt

-- `time.Time` and `time.Duration` count nanoseconds, the first from a fixed instant.
abbrev pub Time : Type 0
Time = ℤ

abbrev pub Duration : Type 0
Duration = ℤ

abbrev pub second : Duration
second = pos 1_000_000_000

-- The seconds from Go's zero time, January 1 of the year 1, to the Unix epoch.
abbrev pub epoch : ℤ
epoch = pos 62_135_596_800

-- Division that rounds down.
unfoldable pub floor_div : ℤ → ℕ → ℤ
floor_div (pos n) d = pos (n / d)
floor_div (negsuc n) d = negsuc (n / d)

-- `t.Unix()` and `time.Unix(s, 0)`
unfoldable pub unix : Time → ℤ
unfolding floor_div
unix t = floor_div t 1_000_000_000 -ℤ epoch

unfoldable pub from_unix : ℤ → Time
from_unix s = (s +ℤ epoch) *ℤ second

-- What is used of packages strconv and fmt beyond decimal numbers: `float64`, of which only what is
-- named here is known, and `%q`. `format_seconds` is the verb `%.0f` on the seconds of a duration, and
-- `to_int64` the conversion `int64(t)`.
pub record Std : Type 1 where
  pub Float : Type 0
  pub parse_float : String → Result Float
  pub float_ge : Float → Float → Bool
  pub format_float : Float → String
  pub to_int64 : Float → ℤ
  pub format_seconds : Duration → String
  pub quote : String → String
