-- ===== src/Runtime/Yielding.antt =====
-- What a handler that returns has found out: a property of the value that it returns, and the rules
-- that follow the code.
use entropyk.Base.{String, Bool, true, false, Option, none, some, ◌≡◌, refl}
use mathlib.Core.Path.{subst}
use entropyk.Go.{Error, Result, ok, err}
use entropyk.Runtime.Monad.{
  World, Outcome, Action, returned, failed, panicked, outcome, pure, raise, wrapping, ask, ◌>>=◌,
  on_error, follow, branch, unless_nil, deref,
}

pub data Yields {S A : Type 0} (P : A → Type 0) (m : Action S A) : Type 0 where
  yields : ((w : World S) (a : A) → (m w).0 ≡ returned a → P a) → Yields P m

module _ {S : Type 0} where
  pub run-Yields :
      {A : Type 0} {P : A → Type 0} {m : Action S A}
      → Yields P m
      → (w : World S) (a : A) → (m w).0 ≡ returned a
      → P a
  run-Yields (yields y) = y

  follow-Yields :
      {A B : Type 0} {Q : A → Type 0} {P : B → Type 0} {h : Error → Action S B} {f : A → Action S B}
      → ((e : Error) → Yields P (h e))
      → ((a : A) → Q a → Yields P (f a))
      → (x : Outcome A × World S) → ((a : A) → x.0 ≡ returned a → Q a)
      → (b : B) → (follow h f x).0 ≡ returned b
      → P b
  follow-Yields kh kf (returned a, w) q b e = run-Yields (kf a (q a refl)) w b e
  follow-Yields kh kf (failed x, w) q b e = run-Yields (kh x) w b e
  follow-Yields kh kf (panicked, w) q b e = cc

module _ {S A : Type 0} where
  -- A handler of which nothing is said but what it returned, and where.
  pub Yields-run : (m : Action S A) → Yields (λ a. (w : World S) × ((m w).0 ≡ returned a)) m
  Yields-run m = yields λ w a e. (w, e)

  pub Yields-pure : {P : A → Type 0} (a : A) → P a → Yields P (pure {S = S} a)
  unfolding pure
  Yields-pure {P} a p = yields λ w b e. subst P (cc) p

  pub Yields-raise : {P : A → Type 0} (e : Error) → Yields P (raise {S = S} e)
  unfolding raise
  Yields-raise e = yields λ w b r. cc

  pub Yields-ask : (g : S → Result A × S) → Yields (λ a. (s : S) × ((g s).0 ≡ ok a)) (ask g)
  unfolding ask
  Yields-ask g = yields λ w a e. (w.state, answered (g w.state).0 a e)
    where
      answered : (r : Result A) (a : A) → outcome r ≡ returned a → r ≡ ok a
      answered (ok b) a e = cc
      answered (err x) a e = cc

  pub Yields-deref : (o : Option A) → Yields (λ a. o ≡ some a) (deref {S = S} o)
  unfolding deref
  Yields-deref none = yields λ w a e. cc
  Yields-deref (some b) = yields λ w a e. cc

  pub Yields-wrapping :
      {P : A → Type 0} (s : String) (m : Action S A) → Yields P m → Yields P (wrapping s m)
  unfolding wrapping
  Yields-wrapping {P} s m y = yields λ w a e.
      follow-Yields {Q = P} {P = P} (λ x. yields λ w' b r. cc)
        (λ b p. yields λ w' b' r. subst P (cc) p) (m w) (run-Yields y w) a e

module _ {S A B : Type 0} {P : B → Type 0} where
  pub Yields-on_error :
      {Q : A → Type 0} (m : Action S A) (h : Error → Action S B) (f : A → Action S B)
      → Yields Q m
      → ((e : Error) → Yields P (h e))
      → ((a : A) → Q a → Yields P (f a))
      → Yields P (on_error m h f)
  unfolding on_error
  Yields-on_error {Q} m h f y kh kf =
      yields λ w b e. follow-Yields {Q = Q} kh kf (m w) (run-Yields y w) b e

  pub Yields-bind :
      {Q : A → Type 0} (m : Action S A) (f : A → Action S B)
      → Yields Q m
      → ((a : A) → Q a → Yields P (f a))
      → Yields P (m >>= f)
  unfolding ◌>>=◌
  Yields-bind {Q} m f y kf =
      yields
        λ w b e. follow-Yields {Q = Q} (λ x. yields λ w' b' r. cc) kf (m w) (run-Yields y w) b e

  pub Yields-unless_nil :
      (o : Option A) (x : Action S B) (f : A → Action S B)
      → (o ≡ none → Yields P x)
      → ((a : A) → o ≡ some a → Yields P (f a))
      → Yields P (unless_nil o x f)
  unfolding unless_nil
  Yields-unless_nil none x f kx kf = yields (run-Yields (kx refl))
  Yields-unless_nil (some a) x f kx kf = yields (run-Yields (kf a refl))

module _ {S B : Type 0} {P : B → Type 0} where
  pub Yields-branch :
      (b : Bool) (x y : Action S B)
      → (b ≡ true → Yields P x)
      → (b ≡ false → Yields P y)
      → Yields P (branch b x y)
  unfolding branch
  Yields-branch true x y kx ky = yields (run-Yields (kx refl))
  Yields-branch false x y kx ky = yields (run-Yields (ky refl))
