-- ===== src/Base/Contains.antt =====
-- What sorting, filtering and `dedup` do to the members of a list.
use mathlib.Core.Path.{◌≡◌, refl, ap}
use mathlib.Core.Logic.{inl, inr}
use mathlib.Core.Bool.{Bool, ◌&&◌, ◌||◌}
use mathlib.Core.List.{List, [], ◌∷◌}
use native.Mathlib.Omega.{arith}
use pingora_mesh.Base.Tests.{Bool-cases}
use pingora_mesh.Base.Equality.{Eq, ◌==◌}
use pingora_mesh.Base.Lists.{keep_if}
use pingora_mesh.Base.Sort.{insert_by, sort_by}
use pingora_mesh.Base.Members.{contains, dedup, dedup_after}

module _ {ℓ} {A : Type ℓ} ⦃e : Eq A⦄ where
  pub contains-keep_if :
      (p : A → Bool) (n : A) (xs : List A) → contains n (keep_if p xs) ≡ (p n && contains n xs)
  unfolding contains keep_if
  contains-keep_if p n [] = ground arith
  contains-keep_if p n (x ∷ xs) = elim (Bool-cases (x == n)) [
    | inl h ↦
        let same : x ≡ n = (e.beq_iff x n).0 h in
        let here = ap p same in ground (arith, contains-keep_if p n xs)
    | inr h ↦ ground (arith, contains-keep_if p n xs)
  ]

  module _ (le : A → A → Bool) where
    contains-insert_by :
        (n x : A) (xs : List A) → contains n (insert_by le x xs) ≡ (x == n || contains n xs)
    unfolding contains insert_by
    contains-insert_by n x [] = refl
    contains-insert_by n x (y ∷ ys) = ground (arith, contains-insert_by n x ys)

    pub contains-sort_by : (n : A) (xs : List A) → contains n (sort_by le xs) ≡ contains n xs
    unfolding contains sort_by
    contains-sort_by n [] = refl
    contains-sort_by n (x ∷ xs) =
        ground (arith, contains-sort_by n xs, contains-insert_by n x (sort_by le xs))

  contains-dedup_after :
      (n x : A) (xs : List A)
      → (x == n || contains n (dedup_after x xs)) ≡ (x == n || contains n xs)
  unfolding contains dedup_after
  contains-dedup_after n x [] = refl
  contains-dedup_after n x (y ∷ ys) = elim (Bool-cases (x == y)) [
    | inl h ↦
        let same : x ≡ y = (e.beq_iff x y).0 h in
        let both = ap (λ z. z == n) same in ground (arith, contains-dedup_after n y ys)
    | inr h ↦ ground (arith, contains-dedup_after n y ys)
  ]

  pub contains-dedup : (n : A) (xs : List A) → contains n (dedup xs) ≡ contains n xs
  unfolding contains dedup
  contains-dedup n [] = refl
  contains-dedup n (x ∷ xs) = contains-dedup_after n x xs
