-- ===== src/Base/Sort.antt =====
-- `slice::sort_by` (a stable sort), `Iterator::min_by` and `Iterator::max_by`, by a Boolean `≤`.
use Prim.Native.Nat.{suc, ◌+◌}
use mathlib.Core.Path.{◌≡◌, refl, subst}
use mathlib.Core.Logic.{inl, inr}
use mathlib.Core.Bool.{Bool, true, false}
use mathlib.Core.Option.{Option, none, some}
use mathlib.Core.List.{List, [], ◌∷◌, Memᴰ}
use mathlib.Core.List.Memᴰ.{cases_cons}
use native.Mathlib.Omega.{arith}
use pingora_mesh.Base.Tests.{if◌then◌else◌, Bool-cases}
use pingora_mesh.Base.Lists.{length, count_if, All, All-map, some_inj}

-- What a comparison needs to be an order up to ties.
pub record IsPreorder {ℓ} {A : Type ℓ} (le : A → A → Bool) : Type ℓ where
  pub total : (a b : A) → le a b ≡ false → le b a ≡ true
  pub trans : (a b c : A) → le a b ≡ true → le b c ≡ true → le a c ≡ true

module _ {ℓ} {A : Type ℓ} (le : A → A → Bool) where
  -- In front of the first element that is not smaller: ties keep their order.
  unfoldable pub insert_by : A → List A → List A
  insert_by a [] = a ∷ []
  insert_by a (x ∷ xs) = if le a x then a ∷ x ∷ xs else x ∷ insert_by a xs

  unfoldable pub sort_by : List A → List A
  unfolding insert_by
  sort_by [] = []
  sort_by (x ∷ xs) = insert_by x (sort_by xs)

  -- The first of the least elements, as `Iterator::min_by` returns it.
  unfoldable pub least_from : A → List A → A
  least_from a [] = a
  least_from a (x ∷ xs) = least_from (if le a x then a else x) xs

  unfoldable pub min_by : List A → Option A
  unfolding least_from
  min_by [] = none
  min_by (x ∷ xs) = some (least_from x xs)

  -- The last of the greatest elements, as `Iterator::max_by` returns it.
  unfoldable pub greatest_from : A → List A → A
  greatest_from a [] = a
  greatest_from a (x ∷ xs) = greatest_from (if le a x then x else a) xs

  unfoldable pub max_by : List A → Option A
  unfolding greatest_from
  max_by [] = none
  max_by (x ∷ xs) = some (greatest_from x xs)

  -- Every earlier element is `≤` every later one.
  abbrev pub IsSortedBy : List A → Type ℓ
  IsSortedBy [] = Unit
  IsSortedBy (x ∷ xs) = All (λ y. le x y ≡ true) xs × IsSortedBy xs

-- Every earlier element stands in a relation to every later one.
abbrev pub IsOrdered {ℓ κ} : {A : Type ℓ} → (A → A → Type κ) → List A → Type κ
IsOrdered R [] = Unit
IsOrdered R (x ∷ xs) = All (R x) xs × IsOrdered R xs

-- A Boolean order that implies a relation orders a sorted list by it.
pub IsSortedBy-IsOrdered {ℓ κ} :
    {A : Type ℓ} (le : A → A → Bool) (R : A → A → Type κ) (xs : List A)
    → ((a b : A) → le a b ≡ true → R a b)
    → IsSortedBy le xs
    → IsOrdered R xs
IsSortedBy-IsOrdered le R [] implies s = tt
IsSortedBy-IsOrdered le R (x ∷ xs) implies (above, s) =
    (All-map xs (implies x) above, IsSortedBy-IsOrdered le R xs implies s)

module _ {ℓ} {A : Type ℓ} (le : A → A → Bool) where
  pub count_if-insert_by :
      (p : A → Bool) (a : A) (xs : List A)
      → count_if p (insert_by le a xs) ≡ (if p a then 1 else 0) + count_if p xs
  unfolding insert_by
  count_if-insert_by p a [] = refl
  count_if-insert_by p a (x ∷ xs) = ground (arith, count_if-insert_by p a xs)

  -- Sorting only reorders.
  length-insert_by : (a : A) (xs : List A) → length (insert_by le a xs) ≡ suc (length xs)
  unfolding insert_by
  length-insert_by a [] = refl
  length-insert_by a (x ∷ xs) = ground (arith, length-insert_by a xs)

  pub length-sort_by : (xs : List A) → length (sort_by le xs) ≡ length xs
  unfolding sort_by
  length-sort_by [] = refl
  length-sort_by (x ∷ xs) = ground (arith, length-sort_by xs, length-insert_by x (sort_by le xs))

  pub count_if-sort_by : (p : A → Bool) (xs : List A) → count_if p (sort_by le xs) ≡ count_if p xs
  unfolding sort_by
  count_if-sort_by p [] = refl
  count_if-sort_by p (x ∷ xs) =
      omega (arith, count_if-insert_by p x (sort_by le xs), count_if-sort_by p xs)

  least_from-mem : (b : A) (ys : List A) → Memᴰ (least_from le b ys) (b ∷ ys)
  unfolding least_from
  least_from-mem b [] = Memᴰ.head refl
  least_from-mem b (y ∷ ys) = elim (Bool-cases (le b y)) [
    | inl e ↦ rw e (skip (least_from-mem b ys))
    | inr e ↦ rw e (Memᴰ.tail (least_from-mem y ys))
  ]
    where
      skip : {m : A} → Memᴰ m (b ∷ ys) → Memᴰ m (b ∷ y ∷ ys)
      skip m = elim (cases_cons m) [ inl e ↦ Memᴰ.head e | inr t ↦ Memᴰ.tail (Memᴰ.tail t) ]

  pub min_by-mem : (xs : List A) (a : A) → min_by le xs ≡ some a → Memᴰ a xs
  unfolding min_by
  min_by-mem [] a h = absurd (cc h)
  min_by-mem (x ∷ xs) a h = subst (λ m. Memᴰ m (x ∷ xs)) (some_inj h) (least_from-mem x xs)

  greatest_from-mem : (b : A) (ys : List A) → Memᴰ (greatest_from le b ys) (b ∷ ys)
  unfolding greatest_from
  greatest_from-mem b [] = Memᴰ.head refl
  greatest_from-mem b (y ∷ ys) = elim (Bool-cases (le b y)) [
    | inl e ↦ rw e (Memᴰ.tail (greatest_from-mem y ys))
    | inr e ↦ rw e (skip (greatest_from-mem b ys))
  ]
    where
      skip : {m : A} → Memᴰ m (b ∷ ys) → Memᴰ m (b ∷ y ∷ ys)
      skip m = elim (cases_cons m) [ inl e ↦ Memᴰ.head e | inr t ↦ Memᴰ.tail (Memᴰ.tail t) ]

  pub max_by-mem : (xs : List A) (a : A) → max_by le xs ≡ some a → Memᴰ a xs
  unfolding max_by
  max_by-mem [] a h = absurd (cc h)
  max_by-mem (x ∷ xs) a h = subst (λ m. Memᴰ m (x ∷ xs)) (some_inj h) (greatest_from-mem x xs)

  pub min_by-none : (xs : List A) → min_by le xs ≡ none → xs ≡ []
  unfolding min_by
  min_by-none [] h = refl
  min_by-none (x ∷ xs) h = absurd (cc h)

  pub max_by-none : (xs : List A) → max_by le xs ≡ none → xs ≡ []
  unfolding max_by
  max_by-none [] h = refl
  max_by-none (x ∷ xs) h = absurd (cc h)

  module _ {κ} (P : A → Type κ) where
    pub All-insert_by : (a : A) (xs : List A) → P a → All P xs → All P (insert_by le a xs)
    unfolding insert_by
    All-insert_by a [] h all = (h, tt)
    All-insert_by a (x ∷ xs) h (px, all) = elim (Bool-cases (le a x)) [
      | inl e ↦ rw e (h, (px, all))
      | inr e ↦ rw e (px, All-insert_by a xs h all)
    ]

    pub All-sort_by : (xs : List A) → All P xs → All P (sort_by le xs)
    unfolding sort_by
    All-sort_by [] all = tt
    All-sort_by (x ∷ xs) (px, all) = All-insert_by x (sort_by le xs) px (All-sort_by xs all)

    pub All-least_from : (a : A) (xs : List A) → P a → All P xs → P (least_from le a xs)
    unfolding least_from
    All-least_from a [] h all = h
    All-least_from a (x ∷ xs) h (px, all) = elim (Bool-cases (le a x)) [
      | inl e ↦ rw e (All-least_from a xs h all)
      | inr e ↦ rw e (All-least_from x xs px all)
    ]

    pub All-min_by : (xs : List A) (a : A) → min_by le xs ≡ some a → All P xs → P a
    unfolding min_by
    All-min_by [] a h all = ground arith
    All-min_by (x ∷ xs) a h (px, all) = subst P (some_inj h) (All-least_from x xs px all)

  module _ (o : IsPreorder le) where
    All-above :
        (a x : A) (xs : List A)
        → le a x ≡ true
        → All (λ y. le x y ≡ true) xs
        → All (λ y. le a y ≡ true) xs
    All-above a x [] h all = tt
    All-above a x (y ∷ ys) h (hy, all) = (o.trans a x y h hy, All-above a x ys h all)

    sorted_insert_by : (a : A) (xs : List A) → IsSortedBy le xs → IsSortedBy le (insert_by le a xs)
    unfolding insert_by
    sorted_insert_by a [] s = (tt, tt)
    sorted_insert_by a (x ∷ xs) (above, s) = elim (Bool-cases (le a x)) [
      | inl e ↦ rw e ((e, All-above a x xs e above), (above, s))
      | inr e ↦
          rw e
            (All-insert_by (λ y. le x y ≡ true) a xs (o.total a x e) above, sorted_insert_by a xs s)
    ]

    -- The result of the sort is sorted.
    pub sort_by-IsSortedBy : (xs : List A) → IsSortedBy le (sort_by le xs)
    unfolding sort_by
    sort_by-IsSortedBy [] = tt
    sort_by-IsSortedBy (x ∷ xs) = sorted_insert_by x (sort_by le xs) (sort_by-IsSortedBy xs)

    -- What `least_from` returns is below its start and below every element.
    pub least_from-below :
        (a : A) (xs : List A)
        → (le (least_from le a xs) a ≡ true) × All (λ y. le (least_from le a xs) y ≡ true) xs
    unfolding least_from
    least_from-below a [] = (elim (Bool-cases (le a a)) [ inl e ↦ e | inr e ↦ o.total a a e ], tt)
    least_from-below a (x ∷ xs) =
        let least = if le a x then a else x in
        let (below, all) = least_from-below least xs in
        let at = least_from le least xs in
        (
          o.trans at least a below (left (le a x) refl),
          (o.trans at least x below (right (le a x) refl), all),
        )
      where
        self : (b : A) → le b b ≡ true
        self b = elim (Bool-cases (le b b)) [ inl e ↦ e | inr e ↦ o.total b b e ]

        left : (t : Bool) → le a x ≡ t → le (if t then a else x) a ≡ true
        left true e = self a
        left false e = o.total a x e

        right : (t : Bool) → le a x ≡ t → le (if t then a else x) x ≡ true
        right true e = e
        right false e = self x

    -- `min_by` returns an element that is `≤` every other.
    pub min_by-below : (xs : List A) (a : A) → min_by le xs ≡ some a → All (λ y. le a y ≡ true) xs
    unfolding min_by
    min_by-below [] a h = tt
    min_by-below (x ∷ xs) a h =
        subst (λ m. All (λ y. le m y ≡ true) (x ∷ xs)) (some_inj h) (least_from-below x xs)

    -- What `greatest_from` returns is above its start and above every element.
    pub greatest_from-above :
        (a : A) (xs : List A)
        → (le a (greatest_from le a xs) ≡ true) × All (λ y. le y (greatest_from le a xs) ≡ true) xs
    unfolding greatest_from
    greatest_from-above a [] =
        (elim (Bool-cases (le a a)) [ inl e ↦ e | inr e ↦ o.total a a e ], tt)
    greatest_from-above a (x ∷ xs) =
        let greatest = if le a x then x else a in
        let (above, all) = greatest_from-above greatest xs in
        let at = greatest_from le greatest xs in
        (
          o.trans a greatest at (left (le a x) refl) above,
          (o.trans x greatest at (right (le a x) refl) above, all),
        )
      where
        self : (b : A) → le b b ≡ true
        self b = elim (Bool-cases (le b b)) [ inl e ↦ e | inr e ↦ o.total b b e ]

        left : (t : Bool) → le a x ≡ t → le a (if t then x else a) ≡ true
        left true e = e
        left false e = self a

        right : (t : Bool) → le a x ≡ t → le x (if t then x else a) ≡ true
        right true e = self x
        right false e = o.total a x e

    -- `max_by` returns an element that every other is `≤`.
    pub max_by-above : (xs : List A) (a : A) → max_by le xs ≡ some a → All (λ y. le y a ≡ true) xs
    unfolding max_by
    max_by-above [] a h = tt
    max_by-above (x ∷ xs) a h =
        subst (λ m. All (λ y. le y m ≡ true) (x ∷ xs)) (some_inj h) (greatest_from-above x xs)
