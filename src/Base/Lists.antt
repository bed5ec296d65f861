-- ===== src/Base/Lists.antt =====
-- Lists measured by native numbers, searched and counted by Boolean tests.
use Prim.Native.Nat.{ℕ, suc, ◌+◌, ◌≤◌}
use mathlib.Core.Path.{◌≡◌, refl, sym, subst}
use mathlib.Core.Logic.{◌≢◌, inl, inr}
use mathlib.Core.Bool.{Bool, true, false, ◌&&◌, ◌||◌}
use mathlib.Core.Option.{Option, none, some}
use mathlib.Core.List.{List, [], ◌∷◌, ◌++◌, Memᴰ}
use mathlib.Core.List.Memᴰ.{cases_cons}
use native.Mathlib.Omega.{arith}
use pingora_mesh.Base.Tests.{if◌then◌else◌, Bool-cases}

module _ {ℓ} {A : Type ℓ} where
  abbrev pub length : List A → ℕ
  length [] = 0
  length (x ∷ xs) = suc (length xs)

  -- How many elements pass the test. Lists with the same counts for every test are permutations.
  abbrev pub count_if : (A → Bool) → List A → ℕ
  count_if p [] = 0
  count_if p (x ∷ xs) = (if p x then 1 else 0) + count_if p xs

  -- `Iterator::filter`
  unfoldable pub keep_if : (A → Bool) → List A → List A
  keep_if p [] = []
  keep_if p (x ∷ xs) = let rest = keep_if p xs in if p x then x ∷ rest else rest

  -- `Iterator::find`
  unfoldable pub find : (A → Bool) → List A → Option A
  find p [] = none
  find p (x ∷ xs) = if p x then some x else find p xs

  -- `Iterator::any`
  unfoldable pub any : (A → Bool) → List A → Bool
  any p [] = false
  any p (x ∷ xs) = p x || any p xs

  -- `slice::first`
  abbrev pub first : List A → Option A
  first [] = none
  first (x ∷ xs) = some x

  abbrev pub is_empty : List A → Bool
  is_empty [] = true
  is_empty (x ∷ xs) = false

  -- A predicate of every element.
  abbrev pub All {κ} : (A → Type κ) → List A → Type κ
  All P [] = Unit
  All P (x ∷ xs) = P x × All P xs

module _ {ℓ} {A : Type ℓ} where
  pub length-append : (xs ys : List A) → length (xs ++ ys) ≡ length xs + length ys
  length-append [] ys = omega arith
  length-append (x ∷ xs) ys = omega (arith, length-append xs ys)

  pub count_if-append :
      (p : A → Bool) (xs ys : List A) → count_if p (xs ++ ys) ≡ count_if p xs + count_if p ys
  count_if-append p [] ys = omega arith
  count_if-append p (x ∷ xs) ys = omega (arith, count_if-append p xs ys)

  pub count_if-keep_if :
      (p q : A → Bool) (xs : List A) → count_if p (keep_if q xs) ≡ count_if (λ x. q x && p x) xs
  unfolding keep_if
  count_if-keep_if p q [] = refl
  count_if-keep_if p q (x ∷ xs) = ground (arith, count_if-keep_if p q xs)

  -- What a search returns passes the test.
  pub find-mem : (p : A → Bool) (xs : List A) (a : A) → find p xs ≡ some a → Memᴰ a xs
  unfolding find
  find-mem p [] a h = absurd (cc h)
  find-mem p (x ∷ xs) a h = elim (Bool-cases (p x)) [
    | inl e ↦ Memᴰ.head (ground (arith, rw e at h))
    | inr e ↦ Memᴰ.tail (find-mem p xs a (rw e at h))
  ]

  pub find-passes : (p : A → Bool) (xs : List A) (a : A) → find p xs ≡ some a → p a ≡ true
  unfolding find
  find-passes p [] a h = ground arith
  find-passes p (x ∷ xs) a h = ground (arith, find-passes p xs a)

pub some_inj {ℓ} : {A : Type ℓ} {a b : A} → some a ≡ some b → a ≡ b
some_inj h = cc h

module _ {ℓ κ} {A : Type ℓ} (P : A → Type κ) where
  pub All-find : (p : A → Bool) (xs : List A) (a : A) → find p xs ≡ some a → All P xs → P a
  unfolding find
  All-find p [] a h all = ground arith
  All-find p (x ∷ xs) a h (px, all) = elim (Bool-cases (p x)) [
    | inl e ↦ subst P (some_inj (rw e at h)) px
    | inr e ↦ All-find p xs a (rw e at h) all
  ]

  pub All-append : (xs ys : List A) → All P xs → All P ys → All P (xs ++ ys)
  All-append [] ys hx hy = hy
  All-append (x ∷ xs) ys (h, hx) hy = (h, All-append xs ys hx hy)

  pub All-keep_if : (q : A → Bool) (xs : List A) → All P xs → All P (keep_if q xs)
  unfolding keep_if
  All-keep_if q [] all = tt
  All-keep_if q (x ∷ xs) (h, all) = elim (Bool-cases (q x)) [
    | inl e ↦ rw e (h, All-keep_if q xs all)
    | inr e ↦ rw e (All-keep_if q xs all)
  ]

module _ {ℓ} {A : Type ℓ} where
  pub mem-keep_if :
      (p : A → Bool) (a : A) (xs : List A) → Memᴰ a (keep_if p xs) → (p a ≡ true) × Memᴰ a xs
  unfolding keep_if
  mem-keep_if p a [] m = elim m [ ]
  mem-keep_if p a (x ∷ xs) m = elim (Bool-cases (p x)) [
    | inl e ↦ elim (cases_cons (rw e at m)) [
      | inl same ↦ (subst (λ b. p b ≡ true) (sym same) e, Memᴰ.head same)
      | inr m' ↦ let (passes, rest) = mem-keep_if p a xs m' in (passes, Memᴰ.tail rest)
    ]
    | inr e ↦ let (passes, rest) = mem-keep_if p a xs (rw e at m) in (passes, Memᴰ.tail rest)
  ]

  -- What every element satisfies, a member satisfies.
  pub All-mem {κ} : (P : A → Type κ) (a : A) (xs : List A) → All P xs → Memᴰ a xs → P a
  All-mem P a [] all m = elim m [ ]
  All-mem P a (x ∷ xs) (px, all) (Memᴰ.head e) = subst P (sym e) px
  All-mem P a (x ∷ xs) (px, all) (Memᴰ.tail m) = All-mem P a xs all m

  -- A test that no element passes.
  pub keep_if-none : (p : A → Bool) (xs : List A) → All (λ x. p x ≡ false) xs → keep_if p xs ≡ []
  unfolding keep_if
  keep_if-none p [] all = refl
  keep_if-none p (x ∷ xs) (fails, all) = rw fails (keep_if-none p xs all)

  pub keep_if-nonempty : (p : A → Bool) (xs : List A) → 1 ≤ count_if p xs → keep_if p xs ≢ []
  unfolding keep_if
  keep_if-nonempty p [] h = absurd (omega arith)
  keep_if-nonempty p (x ∷ xs) h = ground (arith, keep_if-nonempty p xs)

  pub keep_if-empty : (p : A → Bool) (xs : List A) → count_if p xs ≡ 0 → keep_if p xs ≡ []
  unfolding keep_if
  keep_if-empty p [] h = refl
  keep_if-empty p (x ∷ xs) h = ground (arith, keep_if-empty p xs)

  -- Two tests that agree count the same.
  pub count_if-congr :
      (p q : A → Bool) (xs : List A) → All (λ x. p x ≡ q x) xs → count_if p xs ≡ count_if q xs
  count_if-congr p q [] h = refl
  count_if-congr p q (x ∷ xs) (e, h) = ground (arith, count_if-congr p q xs h)

  pub count_if-zero : (p : A → Bool) (xs : List A) → count_if p xs ≡ 0 → All (λ x. p x ≡ false) xs
  count_if-zero p [] h = tt
  count_if-zero p (x ∷ xs) h = (
    elim (Bool-cases (p x)) [ inl e ↦ absurd (ground arith) | inr e ↦ e ],
    count_if-zero p xs (omega arith),
  )

  -- A test that implies another counts no more.
  pub count_if_mono :
      (p q : A → Bool) (xs : List A)
      → ((x : A) → p x ≡ true → q x ≡ true)
      → count_if p xs ≤ count_if q xs
  count_if_mono p q [] h = omega arith
  count_if_mono p q (x ∷ xs) h = ground (arith, h x, count_if_mono p q xs h)

  pub keep_if-mem :
      (p : A → Bool) (a : A) (xs : List A) → Memᴰ a xs → p a ≡ true → Memᴰ a (keep_if p xs)
  unfolding keep_if
  keep_if-mem p a [] m h = elim m [ ]
  keep_if-mem p a (x ∷ xs) (Memᴰ.head e) h = rw (subst (λ b. p b ≡ true) e h) (Memᴰ.head e)
  keep_if-mem p a (x ∷ xs) (Memᴰ.tail m) h = elim (Bool-cases (p x)) [
    | inl e ↦ rw e (Memᴰ.tail (keep_if-mem p a xs m h))
    | inr e ↦ rw e (keep_if-mem p a xs m h)
  ]

module _ {ℓ κ} {A : Type ℓ} {B : Type κ} (f : A → Option B) where
  -- `Iterator::filter_map`
  unfoldable pub filter_map : List A → List B
  filter_map [] = []
  filter_map (x ∷ xs) = let rest = filter_map xs in elim (f x) [ none ↦ rest | some y ↦ y ∷ rest ]

  pub filter_map-some :
      (x : A) (xs : List A) (y : B) → f x ≡ some y → filter_map (x ∷ xs) ≡ y ∷ filter_map xs
  unfolding filter_map
  filter_map-some x xs y h = rw (h, filter_map) refl

  pub filter_map-none : (x : A) (xs : List A) → f x ≡ none → filter_map (x ∷ xs) ≡ filter_map xs
  unfolding filter_map
  filter_map-none x xs h = rw (h, filter_map) refl

module _ {ℓ κ μ} {A : Type ℓ} {P : A → Type κ} {Q : A → Type μ} where
  pub All-map : (xs : List A) → ((x : A) → P x → Q x) → All P xs → All Q xs
  All-map [] f all = tt
  All-map (x ∷ xs) f (p, all) = (f x p, All-map xs f all)
