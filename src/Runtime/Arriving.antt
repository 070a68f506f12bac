-- ===== src/Runtime/Arriving.antt =====
-- Handlers that, where they return, have brought the world from one property to another, and the rules
-- that follow their code.
use entropyk.Base.{String, Bool, true, false, Option, none, some, ◌≡◌, refl}
use entropyk.Go.{Error, Result, ok, err}
use entropyk.Runtime.Monad.{
  World, Outcome, Action, returned, failed, panicked, lift, wrapping, ◌>>=◌, on_error, follow,
  deref, branch, unless_nil,
}
use entropyk.Runtime.Keeping.{Holds, run-Holds, Ends}

pub data Arrives {S A : Type 0} (I J : World S → Type 0) (m : Action S A) : Type 0 where
  arrives : ((w : World S) → I w → (a : A) → (m w).0 ≡ returned a → J (m w).1) → Arrives I J m

module _ {S : Type 0} {J : World S → Type 0} where
  follow-after :
      {A B : Type 0} {Q : Type 0} {f : A → Action S B}
      → ((a : A) → Holds J Q (f a))
      → (x : Outcome A × World S) → ((a : A) → x.0 ≡ returned a → J x.1)
      → (b : B) → (follow (λ e w. (failed e, w)) f x).0 ≡ returned b
      → J (follow (λ e w. (failed e, w)) f x).1
  follow-after kf (returned a, w) l b e = (run-Holds (kf a) w (l a refl)).0
  follow-after kf (failed x, w) l b e = absurd cc
  follow-after kf (panicked, w) l b e = absurd cc

module _ {S : Type 0} {I J : World S → Type 0} where
  pub run-Arrives :
      {A : Type 0} {m : Action S A}
      → Arrives I J m
      → (w : World S) → I w
      → (a : A) → (m w).0 ≡ returned a
      → J (m w).1
  run-Arrives (arrives k) = k

  follow-before :
      {A B : Type 0} {Q : Type 0} {h : Error → Action S B} {f : A → Action S B}
      → ((e : Error) → Arrives I J (h e))
      → ((a : A) → Arrives I J (f a))
      → (x : Outcome A × World S) → Ends I Q x
      → (b : B) → (follow h f x).0 ≡ returned b
      → J (follow h f x).1
  follow-before kh kf (returned a, w) l b e = run-Arrives (kf a) w l.0 b e
  follow-before kh kf (failed x, w) l b e = run-Arrives (kh x) w l.0 b e
  follow-before kh kf (panicked, w) l b e = absurd cc

  pub Arrives-from :
      {A : Type 0} {I' : World S → Type 0} {m : Action S A}
      → ((w : World S) → I' w → I w)
      → Arrives I J m
      → Arrives I' J m
  Arrives-from weaker k = arrives λ w l. run-Arrives k w (weaker w l)

  -- What goes before, and what comes after.
  pub Arrives-bind :
      {A B : Type 0} {Q : Type 0} (m : Action S A) (f : A → Action S B)
      → Holds I Q m
      → ((a : A) → Arrives I J (f a))
      → Arrives I J (m >>= f)
  unfolding ◌>>=◌
  Arrives-bind m f km kf =
      arrives λ w l b e.
        follow-before (λ x. arrives λ w' _ b' r. absurd cc) kf (m w) (run-Holds km w l) b e

  pub Arrives-then :
      {A B : Type 0} {Q : Type 0} (m : Action S A) (f : A → Action S B)
      → Arrives I J m
      → ((a : A) → Holds J Q (f a))
      → Arrives I J (m >>= f)
  unfolding ◌>>=◌
  Arrives-then m f km kf = arrives λ w l b e. follow-after kf (m w) (run-Arrives km w l) b e

  pub Arrives-on_error :
      {A B : Type 0} {Q : Type 0} (m : Action S A) (h : Error → Action S B) (f : A → Action S B)
      → Holds I Q m
      → ((e : Error) → Arrives I J (h e))
      → ((a : A) → Arrives I J (f a))
      → Arrives I J (on_error m h f)
  unfolding on_error
  Arrives-on_error m h f km kh kf =
      arrives λ w l b e. follow-before kh kf (m w) (run-Holds km w l) b e

  pub Arrives-on_error-lift :
      {A B : Type 0} (r : Result A) (h : Error → Action S B) (f : A → Action S B)
      → ((e : Error) → Arrives I J (h e))
      → ((a : A) → r ≡ ok a → Arrives I J (f a))
      → Arrives I J (on_error (lift r) h f)
  unfolding on_error lift
  Arrives-on_error-lift (ok a) h f kh kf = arrives (run-Arrives (kf a refl))
  Arrives-on_error-lift (err e) h f kh kf = arrives (run-Arrives (kh e))

  pub Arrives-bind_lift :
      {A B : Type 0} (s : String) (r : Result A) (f : A → Action S B)
      → ((a : A) → r ≡ ok a → Arrives I J (f a))
      → Arrives I J (wrapping s (lift r) >>= f)
  unfolding ◌>>=◌ lift wrapping
  Arrives-bind_lift s (ok a) f kf = arrives (run-Arrives (kf a refl))
  Arrives-bind_lift s (err e) f kf = arrives λ w l b r. absurd cc

  pub Arrives-bind_deref :
      {A B : Type 0} (o : Option A) (f : A → Action S B)
      → ((a : A) → o ≡ some a → Arrives I J (f a))
      → Arrives I J (deref o >>= f)
  unfolding ◌>>=◌ deref
  Arrives-bind_deref none f kf = arrives λ w l b r. absurd cc
  Arrives-bind_deref (some a) f kf = arrives (run-Arrives (kf a refl))

  pub Arrives-branch :
      {A : Type 0} (b : Bool) (x y : Action S A)
      → (b ≡ true → Arrives I J x)
      → (b ≡ false → Arrives I J y)
      → Arrives I J (branch b x y)
  unfolding branch
  Arrives-branch true x y kx ky = arrives (run-Arrives (kx refl))
  Arrives-branch false x y kx ky = arrives (run-Arrives (ky refl))

  pub Arrives-unless_nil :
      {A B : Type 0} (o : Option A) (x : Action S B) (f : A → Action S B)
      → (o ≡ none → Arrives I J x)
      → ((a : A) → o ≡ some a → Arrives I J (f a))
      → Arrives I J (unless_nil o x f)
  unfolding unless_nil
  Arrives-unless_nil none x f kx kf = arrives (run-Arrives (kx refl))
  Arrives-unless_nil (some a) x f kx kf = arrives (run-Arrives (kf a refl))
