-- ===== src/Runtime/Returning.antt =====
-- What a handler that returns has done: its calls, taken apart one by one.
use entropyk.Base.{String, ◌≡◌, refl, ◌∙◌, ap, arith}
use entropyk.Go.{Error, Result, ok, err}
use entropyk.Runtime.Monad.{
  World, Outcome, Action, returned, failed, panicked, lift, wrapping, ask, ◌>>=◌, follow,
}

module _ {S : Type 0} where
  follow_inv :
      {A B : Type 0} (h : Error → Action S B) (f : A → Action S B) (x : Outcome A × World S) {b : B}
      → ((e : Error) (w : World S) → (h e w).0 ≡ returned b → ⊥)
      → (follow h f x).0 ≡ returned b
      → (a : A) × (x.0 ≡ returned a) × (follow h f x ≡ f a x.1)
  follow_inv h f (returned a, w) no_return e = (a, refl, refl)
  follow_inv h f (failed x, w) no_return e = absurd (no_return x w e)
  follow_inv h f (panicked, w) no_return e = cc

  pub bind_inv :
      {A B : Type 0} (m : Action S A) (f : A → Action S B) (w : World S) {b : B}
      → ((m >>= f) w).0 ≡ returned b
      → (a : A) × ((m w).0 ≡ returned a) × ((m >>= f) w ≡ f a (m w).1)
  unfolding ◌>>=◌
  bind_inv m f w e = follow_inv _ f (m w) (λ x w' r. cc) e

  pub wrapping_inv :
      {A : Type 0} (s : String) (m : Action S A) (w : World S) {a : A}
      → (wrapping s m w).0 ≡ returned a
      → ((m w).0 ≡ returned a) × ((wrapping s m w).1 ≡ (m w).1)
  unfolding wrapping
  wrapping_inv s m w e = ground arith

  pub ask_inv :
      {A : Type 0} (f : S → Result A × S) (w : World S) {a : A}
      → (ask f w).0 ≡ returned a
      → ((f w.state).0 ≡ ok a) × ((ask f w).1.log ≡ w.log)
  unfolding ask
  ask_inv f w e = ground arith

  pub lift_inv :
      {A : Type 0} (r : Result A) (w : World S) {a : A}
      → (lift r w).0 ≡ returned a
      → (r ≡ ok a) × ((lift r w).1 ≡ w)
  unfolding lift
  lift_inv (ok a) w e = (ground arith, refl)
  lift_inv (err x) w e = cc

  -- A call that asks or a function that touches nothing, and the code that follows it.
  pub bind_ask_inv :
      {A B : Type 0} (s : String) (g : S → Result A × S) (f : A → Action S B) (w : World S) {b : B}
      → ((wrapping s (ask g) >>= f) w).0 ≡ returned b
      → (a : A) × (w' : World S) × (w'.log ≡ w.log)
        × ((g w.state).0 ≡ ok a)
        × ((wrapping s (ask g) >>= f) w ≡ f a w')
  bind_ask_inv s g f w e =
      let (a, r, q) = bind_inv (wrapping s (ask g)) f w e in
      let (r', same) = wrapping_inv s (ask g) w r in
      let (found, quiet) = ask_inv g w r' in
      (a, (wrapping s (ask g) w).1, ap (λ (v : World S). v.log) same ∙ quiet, found, q)

  pub bind_lift_inv :
      {A B : Type 0} (s : String) (r : Result A) (f : A → Action S B) (w : World S) {b : B}
      → ((wrapping s (lift r) >>= f) w).0 ≡ returned b
      → (a : A) × (r ≡ ok a) × ((wrapping s (lift r) >>= f) w ≡ f a w)
  bind_lift_inv s r f w e =
      let (a, v, q) = bind_inv (wrapping s (lift r)) f w e in
      let (v', same) = wrapping_inv s (lift r) w v in
      let (found, quiet) = lift_inv r w v' in (a, found, q ∙ ap (f a) (same ∙ quiet))
