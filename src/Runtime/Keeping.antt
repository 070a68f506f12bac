-- ===== src/Runtime/Keeping.antt =====
-- Handlers that put only effects with a given property into the log and panic only under a given
-- condition, and the rules that follow their code.
use entropyk.Base.{String, Bool, true, false, Option, none, some, All, ◌∷◌, ◌≡◌, refl}
use entropyk.Go.{Error, Result, ok, err}
use entropyk.Runtime.Effects.{Effect}
use entropyk.Runtime.Monad.{
  World, Outcome, Action, returned, failed, panicked, outcome, pure, raise, lift, wrapping, ask,
  ◌>>=◌, on_error, emit, follow, deref, branch, unless_nil,
}

-- The world has the property `I`, and a panic implies `Q`.
abbrev pub Ends : {S A : Type 0} → (World S → Type 0) → Type 0 → Outcome A × World S → Type 0
Ends I Q (r, w) = I w × (r ≡ panicked → Q)

-- The effects in the log all have the property `P`, and a panic implies `Q`.
abbrev pub Fine : {S A : Type 0} → (Effect → Type 0) → Type 0 → Outcome A × World S → Type 0
Fine P Q (r, w) = All P w.log × (r ≡ panicked → Q)

pub data Holds {S A : Type 0} (I : World S → Type 0) (Q : Type 0) (m : Action S A) : Type 0 where
  keeps : ((w : World S) → I w → Ends I Q (m w)) → Holds I Q m

abbrev pub Keeps : {S A : Type 0} → (Effect → Type 0) → Type 0 → Action S A → Type 0
Keeps P Q m = Holds (λ w. All P w.log) Q m

-- An answer is no panic.
pub answered : {A Q : Type 0} (r : Result A) → outcome r ≡ panicked → Q
answered (ok a) e = cc
answered (err x) e = cc

module _ {S : Type 0} {I : World S → Type 0} {Q : Type 0} where
  pub run-Holds : {A : Type 0} {m : Action S A} → Holds I Q m → (w : World S) → I w → Ends I Q (m w)
  run-Holds (keeps k) = k

  Ends-follow :
      {A B : Type 0} {h : Error → Action S B} {f : A → Action S B}
      → ((e : Error) → Holds I Q (h e))
      → ((a : A) → Holds I Q (f a))
      → (x : Outcome A × World S) → Ends I Q x
      → Ends I Q (follow h f x)
  Ends-follow kh kf (returned a, w) l = run-Holds (kf a) w l.0
  Ends-follow kh kf (failed e, w) l = run-Holds (kh e) w l.0
  Ends-follow kh kf (panicked, w) l = (l.0, λ _. l.1 refl)

  pub Holds-pure : {A : Type 0} (a : A) → Holds I Q (pure {S = S} a)
  unfolding pure
  Holds-pure a = keeps λ w h. (h, λ e. cc)

  pub Holds-raise : {A : Type 0} (e : Error) → Holds I Q (raise {S = S} {A = A} e)
  unfolding raise
  Holds-raise e = keeps λ w h. (h, λ p. cc)

  pub Holds-lift : {A : Type 0} (r : Result A) → Holds I Q (lift {S = S} r)
  unfolding lift
  Holds-lift (ok a) = keeps λ w h. (h, λ e. cc)
  Holds-lift (err x) = keeps λ w h. (h, λ e. cc)

  pub Holds-on_error :
      {A B : Type 0} (m : Action S A) (h : Error → Action S B) (f : A → Action S B)
      → Holds I Q m
      → ((e : Error) → Holds I Q (h e))
      → ((a : A) → Holds I Q (f a))
      → Holds I Q (on_error m h f)
  unfolding on_error
  Holds-on_error m h f km kh kf = keeps λ w l. Ends-follow kh kf (m w) (run-Holds km w l)

  pub Holds-bind :
      {A B : Type 0} (m : Action S A) (f : A → Action S B)
      → Holds I Q m
      → ((a : A) → Holds I Q (f a))
      → Holds I Q (m >>= f)
  unfolding ◌>>=◌
  Holds-bind m f km kf =
      keeps λ w l. Ends-follow (λ e. keeps λ _ h. (h, λ p. cc)) kf (m w) (run-Holds km w l)

  pub Holds-wrapping :
      {A : Type 0} (s : String) (m : Action S A) → Holds I Q m → Holds I Q (wrapping s m)
  unfolding wrapping
  Holds-wrapping s m km = keeps λ w l.
      Ends-follow (λ e. keeps λ _ h. (h, λ p. cc)) (λ a. keeps λ _ h. (h, λ p. cc)) (m w)
        (run-Holds km w l)

  pub Holds-branch :
      {A : Type 0} (b : Bool) (x y : Action S A)
      → (b ≡ true → Holds I Q x)
      → (b ≡ false → Holds I Q y)
      → Holds I Q (branch b x y)
  unfolding branch
  Holds-branch true x y kx ky = keeps (run-Holds (kx refl))
  Holds-branch false x y kx ky = keeps (run-Holds (ky refl))

  pub Holds-unless_nil :
      {A B : Type 0} (o : Option A) (x : Action S B) (f : A → Action S B)
      → (o ≡ none → Holds I Q x)
      → ((a : A) → o ≡ some a → Holds I Q (f a))
      → Holds I Q (unless_nil o x f)
  unfolding unless_nil
  Holds-unless_nil none x f kx kf = keeps (run-Holds (kx refl))
  Holds-unless_nil (some a) x f kx kf = keeps (run-Holds (kf a refl))

  -- Binds that hand the equation of the value on; a nil pointer panics.
  pub Holds-bind_deref :
      {A B : Type 0} (o : Option A) (f : A → Action S B)
      → (o ≡ none → Q)
      → ((a : A) → o ≡ some a → Holds I Q (f a))
      → Holds I Q (deref o >>= f)
  unfolding ◌>>=◌ deref
  Holds-bind_deref none f q kf = keeps λ w h. (h, λ _. q refl)
  Holds-bind_deref (some a) f q kf = keeps (run-Holds (kf a refl))

  pub Holds-bind_lift :
      {A B : Type 0} (s : String) (r : Result A) (f : A → Action S B)
      → ((a : A) → r ≡ ok a → Holds I Q (f a))
      → Holds I Q (wrapping s (lift r) >>= f)
  unfolding ◌>>=◌ lift wrapping
  Holds-bind_lift s (ok a) f kf = keeps (run-Holds (kf a refl))
  Holds-bind_lift s (err e) f kf = keeps λ w h. (h, λ p. cc)

  pub Holds-on_error-lift :
      {A B : Type 0} (r : Result A) (h : Error → Action S B) (f : A → Action S B)
      → ((e : Error) → Holds I Q (h e))
      → ((a : A) → r ≡ ok a → Holds I Q (f a))
      → Holds I Q (on_error (lift r) h f)
  unfolding on_error lift
  Holds-on_error-lift (ok a) h f kh kf = keeps (run-Holds (kf a refl))
  Holds-on_error-lift (err e) h f kh kf = keeps (run-Holds (kh e))

  -- Rules that hand on what a handler or a call has returned, and where.
  follow_seen :
      {A B : Type 0} {f : A → Action S B} (x : Outcome A × World S)
      → Ends I Q x
      → ((a : A) → x.0 ≡ returned a → Holds I Q (f a))
      → Ends I Q (follow (λ e w'. (failed e, w')) f x)
  follow_seen (returned a, w) l kf = run-Holds (kf a refl) w l.0
  follow_seen (failed e, w) l kf = (l.0, λ p. cc)
  follow_seen (panicked, w) l kf = (l.0, λ _. l.1 refl)

  pub Holds-bind_seen :
      {A B : Type 0} (m : Action S A) (f : A → Action S B)
      → Holds I Q m
      → ((a : A) (w : World S) → I w → (m w).0 ≡ returned a → Holds I Q (f a))
      → Holds I Q (m >>= f)
  unfolding ◌>>=◌
  Holds-bind_seen m f km kf = keeps λ w l. follow_seen (m w) (run-Holds km w l) λ a e. kf a w l e

  -- Calls, by what they make of the world.
  pub Holds-ask :
      {A : Type 0} (f : S → Result A × S)
      → ((w : World S) → I w → I (record w { state = (f w.state).1 }))
      → Holds I Q (ask f)
  unfolding ask
  Holds-ask f kept = keeps λ w h. (kept w h, answered (f w.state).0)

  pub Holds-emit :
      (e : Effect)
      → ((w : World S) → I w → I (record w { log = e ∷ w.log }))
      → Holds I Q (emit {S = S} e)
  unfolding emit
  Holds-emit e kept = keeps λ w h. (kept w h, λ q. cc)

  answered_seen :
      {A B : Type 0} {h : Error → Action S B} {f : A → Action S B} (r : Result A) (w : World S)
      → I w
      → ((e : Error) → Holds I Q (h e))
      → ((a : A) → r ≡ ok a → Holds I Q (f a))
      → Ends I Q (follow h f (outcome r, w))
  answered_seen (ok a) w l kh kf = run-Holds (kf a refl) w l
  answered_seen (err e) w l kh kf = run-Holds (kh e) w l

  pub Holds-on_error-ask :
      {A B : Type 0} (g : S → Result A × S) (h : Error → Action S B) (f : A → Action S B)
      → ((w : World S) → I w → I (record w { state = (g w.state).1 }))
      → ((e : Error) → Holds I Q (h e))
      → ((a : A) (s : S) → (g s).0 ≡ ok a → Holds I Q (f a))
      → Holds I Q (on_error (ask g) h f)
  unfolding on_error ask
  Holds-on_error-ask g h f kept kh kf =
      keeps λ w l. answered_seen (g w.state).0 _ (kept w l) kh λ a e. kf a w.state e

module _ {S : Type 0} {P : Effect → Type 0} {Q : Type 0} where
  pub Keeps-ask : {A : Type 0} (f : S → Result A × S) → Keeps P Q (ask f)
  Keeps-ask f = Holds-ask f λ w h. h

  pub Keeps-emit : (e : Effect) → P e → Keeps P Q (emit {S = S} e)
  Keeps-emit e p = Holds-emit e λ w h. (p, h)

  pub Keeps-on_error-ask :
      {A B : Type 0} (g : S → Result A × S) (h : Error → Action S B) (f : A → Action S B)
      → ((e : Error) → Keeps P Q (h e))
      → ((a : A) (s : S) → (g s).0 ≡ ok a → Keeps P Q (f a))
      → Keeps P Q (on_error (ask g) h f)
  Keeps-on_error-ask g h f kh kf = Holds-on_error-ask g h f (λ w l. l) kh kf
