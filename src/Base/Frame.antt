-- ===== src/Base/Frame.antt =====
-- What every action of a handler respects: a preorder between the state before and the state after,
-- whether the action succeeds or fails. It is shown step by step along the handler's own text.
use mathlib.Core.Path.{◌≡◌, refl}
use mathlib.Core.Logic.{◌≢◌, inl, inr}
use pingora_mesh.Base.Outcome.{Result, ok, err, Exec, Result-cases, lift, gets, ◌>>=◌}

pub record Preorder {ℓ} {S : Type ℓ} (R : S → S → Type ℓ) : Type ℓ where
  pub same : (s : S) → R s s
  pub after : (r s t : S) → R r s → R s t → R r t

unfoldable pub Keeps {ℓ} : {S E A : Type ℓ} → (S → S → Type ℓ) → Exec S E A → Type ℓ
Keeps {S = S} R m = (s : S) → R s (m s).1

module _ {ℓ} {S E A : Type ℓ} (R : S → S → Type ℓ) (order : Preorder R) where
  pub lift-Keeps : (r : Result E A) → Keeps {E = E} R (lift r)
  unfolding Keeps
  lift-Keeps r s = order.same s

module _ {ℓ} {S A : Type ℓ} (R : S → S → Type ℓ) (order : Preorder R) (E : Type ℓ) where
  pub gets-Keeps : (f : S → A) → Keeps {E = E} R (gets f)
  unfolding Keeps
  gets-Keeps f s = order.same s

module _ {ℓ} {S E A B : Type ℓ} (R : S → S → Type ℓ) (order : Preorder R) where
  pub bind-Keeps :
      (m : Exec S E A) (f : A → Exec S E B)
      → Keeps R m
      → ((a : A) → Keeps R (f a))
      → Keeps R (m >>= f)
  unfolding Keeps
  bind-Keeps m f h k s = elim (Result-cases (m s).0) [
    | inl (e, refused) ↦ rw (refused) (h s)
    | inr (a, done) ↦ rw (done) (order.after s (m s).1 _ (h s) (k a (m s).1))
  ]

err≢ok {ℓ} : {E A : Type ℓ} {e : E} {a : A} → err e ≢ ok a
err≢ok p = cc p

module _ {ℓ} {S E A B : Type ℓ} where
  -- A sequence that succeeds is its first action, which succeeds, and then the rest.
  pub bind-ok :
      (m : Exec S E A) (f : A → Exec S E B) (s : S) (b : B)
      → ((m >>= f) s).0 ≡ ok b
      → (a : A) × (m s).0 ≡ ok a × (f a (m s).1).0 ≡ ok b × ((m >>= f) s).1 ≡ (f a (m s).1).1
  bind-ok m f s b done = elim (Result-cases (m s).0) [
    | inl (e, refused) ↦ absurd (err≢ok (rw (refused) at done))
    | inr (a, first) ↦ (a, first, rw (first) at done, rw (first) refl)
  ]
