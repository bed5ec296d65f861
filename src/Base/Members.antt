-- ===== src/Base/Members.antt =====
-- `contains` and `dedup` of a `Vec`.
use mathlib.Core.Bool.{Bool, false, ◌||◌}
use mathlib.Core.List.{List, [], ◌∷◌}
use pingora_mesh.Base.Tests.{if◌then◌else◌}
use pingora_mesh.Base.Equality.{Eq, ◌==◌}

module _ {ℓ} {A : Type ℓ} ⦃e : Eq A⦄ where
  unfoldable pub contains : A → List A → Bool
  contains a [] = false
  contains a (x ∷ xs) = x == a || contains a xs

  -- Without the elements that equal the one in front of them.
  unfoldable pub dedup_after : A → List A → List A
  dedup_after a [] = []
  dedup_after a (x ∷ xs) = let rest = dedup_after x xs in if a == x then rest else x ∷ rest

  unfoldable pub dedup : List A → List A
  unfolding dedup_after
  dedup [] = []
  dedup (x ∷ xs) = x ∷ dedup_after x xs
