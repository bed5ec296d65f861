-- ===== src/Hub/Service/Codes/Free.antt =====
-- The search for a free code ends where there are fewer codes than candidates.
use text.Mathlib.TextLemmas.{append_cancel_left}
use pingora_mesh.Base.{
  ℕ, zero, suc, ◌+◌, ◌%◌, ◌≤◌, ◌<◌, ◌≡◌, ◌≢◌, refl, sym, ap, subst, some_inj, String, Bool, true,
  false, not, Option, none, some, List, [], ◌∷◌, map, length, keep_if, contains, arith, inl, inr,
  Bool-cases, Option-cases, ◌==◌, string_eq,
}
use pingora_mesh.Base.Map
use pingora_mesh.Base.Text.{◌<>◌, decimal, char_count, char_count-append}
use pingora_mesh.Base.Decimal.{decimal_inj}
use pingora_mesh.Domain.{Uuid}
use pingora_mesh.Hub.Memory.{MemoryState}
use pingora_mesh.Hub.Memory.Sites.{site_id_by_code}
use pingora_mesh.Hub.Service.Codes.{
  u32_values, candidate, is_taken, free_code_from, base_code, generate_unique_site_code,
}

longer : (base : String) (n : ℕ) → base ≢ base <> "-" <> decimal n
longer base n same = ground (
  arith,
  ap char_count same,
  char_count-append base ("-" <> decimal n),
  char_count-append "-" (decimal n),
)

-- Before the counter has come around, no value of it is met twice.
counter_inj :
    (m n : ℕ)
    → suc m < u32_values
    → suc n < u32_values
    → (m + 2) % u32_values ≡ (n + 2) % u32_values
    → m ≡ n
counter_inj m n low low' same = omega arith

candidate_inj :
    (base : String) (m n : ℕ)
    → m < u32_values
    → n < u32_values
    → candidate base m ≡ candidate base n
    → m ≡ n
unfolding candidate
candidate_inj base zero zero low low' same = refl
candidate_inj base zero (suc n) low low' same = absurd (longer base ((n + 2) % u32_values) same)
candidate_inj base (suc m) zero low low' same =
    absurd (longer base ((m + 2) % u32_values) (sym same))
candidate_inj base (suc m) (suc n) low low' same =
    let digits = append_cancel_left "-" _ _ (append_cancel_left base _ _ same) in
    ap suc (counter_inj m n low low' (decimal_inj _ _ digits))

length-keep_if : (p : String → Bool) (xs : List String) → length (keep_if p xs) ≤ length xs
unfolding keep_if
length-keep_if p [] = omega arith
length-keep_if p (x ∷ xs) = ground (arith, length-keep_if p xs)

contains-keep_if :
    (a b : String) (xs : List String)
    → (b == a) ≡ false
    → contains b xs ≡ true
    → contains b (keep_if (λ x. not (x == a)) xs) ≡ true
unfolding contains keep_if
contains-keep_if a b [] other h = h
contains-keep_if a b (x ∷ xs) other h = elim (Bool-cases (x == a)) [
  | inl same ↦
      let apart : (x == b) ≡ false =
        ground (arith, string_eq.beq_iff x a, string_eq.beq_iff x b, string_eq.beq_iff b a) in
      rw (same) (contains-keep_if a b xs other (rw (apart) at h))
  | inr kept ↦ rw (kept) (ground (arith, contains-keep_if a b xs other))
]

-- Without one of its members, a list is shorter.
keep_if-shorter :
    (a : String) (xs : List String)
    → contains a xs ≡ true
    → length (keep_if (λ x. not (x == a)) xs) < length xs
unfolding contains keep_if
keep_if-shorter a [] h = absurd (cc h)
keep_if-shorter a (x ∷ xs) h = elim (Bool-cases (x == a)) [
  | inl same ↦ rw (same) (ground (arith, length-keep_if (λ y. not (y == a)) xs))
  | inr other ↦ rw (other) (ground (arith, keep_if-shorter a xs (rw (other) at h)))
]

-- A sequence of different texts that all stand in a list is no longer than the list.
pigeonhole :
    (f : ℕ → String) (n : ℕ) (xs : List String)
    → ((i j : ℕ) → i < n → j < n → f i ≡ f j → i ≡ j)
    → ((i : ℕ) → i < n → contains (f i) xs ≡ true)
    → n ≤ length xs
pigeonhole f zero xs inj all = omega arith
pigeonhole f (suc n) xs inj all =
    let fewer = keep_if (λ x. not (x == f n)) xs in
    let apart : (i : ℕ) → i < n → (f i == f n) ≡ false = λ i below.
      ground (arith, inj i n (omega arith) (omega arith), string_eq.beq_iff (f i) (f n)) in
    let later =
      pigeonhole f n fewer (λ i j below below'. inj i j (omega arith) (omega arith))
        (λ i below. contains-keep_if (f n) (f i) xs (apart i below) (all i (omega arith))) in
    ground (arith, later, keep_if-shorter (f n) xs (all n (omega arith)))

-- The codes that are taken.
abbrev taken_codes : MemoryState → List String
taken_codes state = map (λ entry. entry.0) state.site_ids_by_code

get-contains :
    (key : String) (m : Map.Map String Uuid)
    → elim (Map.get key m) [ none ↦ false | some id ↦ true ] ≡ true
    → contains key (map (λ entry. entry.0) m) ≡ true
unfolding Map.get contains
get-contains key [] h = h
get-contains key ((k, v) ∷ m) h = ground (arith, get-contains key m)

length-map : {A B : Type 0} (f : A → B) (xs : List A) → length (map f xs) ≡ length xs
length-map f [] = refl
length-map f (x ∷ xs) = ap suc (length-map f xs)

free_code_from-none :
    (fuel : ℕ) (state : MemoryState) (base : String) (n : ℕ)
    → free_code_from fuel state base n ≡ none
    → (i : ℕ) → i < fuel
    → is_taken state (candidate base (i + n)) ≡ true
unfolding free_code_from
free_code_from-none zero state base n h i below = absurd (omega arith)
free_code_from-none (suc fuel) state base n h i below =
    elim (Bool-cases (is_taken state (candidate base n))) [
      | inr free ↦ absurd (cc (rw (free, free_code_from) at h))
      | inl taken ↦
          let later =
            free_code_from-none fuel state base (suc n) (rw (taken, free_code_from) at h) in
          elim i as (λ k. k < suc fuel → is_taken state (candidate base (k + n)) ≡ true) [
            | zero ↦ λ _. subst (λ k. is_taken state (candidate base k) ≡ true) (omega arith) taken
            | suc k ↦ λ b.
                subst (λ j. is_taken state (candidate base j) ≡ true) (omega arith)
                  (later k (omega arith))
          ]
            below
    ]

free_code_from-free :
    (fuel : ℕ) (state : MemoryState) (base : String) (n : ℕ) (found : String)
    → free_code_from fuel state base n ≡ some found
    → is_taken state found ≡ false
unfolding free_code_from
free_code_from-free zero state base n found h = absurd (cc h)
free_code_from-free (suc fuel) state base n found h =
    elim (Bool-cases (is_taken state (candidate base n))) [
      | inl taken ↦
          free_code_from-free fuel state base (suc n) found (rw (taken, free_code_from) at h)
      | inr free ↦
          subst (λ site_code. is_taken state site_code ≡ false)
            (some_inj (rw (free, free_code_from) at h)) free
    ]

not_taken :
    (state : MemoryState) (found : String)
    → is_taken state found ≡ false
    → site_id_by_code found state ≡ none
not_taken state found h = elim (Option-cases (site_id_by_code found state)) [
  | inl e ↦ e
  | inr (id, e) ↦ absurd (cc (rw (e, is_taken) at h))
]

pub generate_unique_site_code-ends :
    (fuel : ℕ) (state : MemoryState) (fresh : String) (preferred : Option String)
    (name domain : String)
    → length state.site_ids_by_code < fuel
    → length state.site_ids_by_code < u32_values
    → (found : String) × (generate_unique_site_code fuel state fresh preferred name domain
        ≡ some found)
      × (site_id_by_code found state ≡ none)
unfolding generate_unique_site_code site_id_by_code
generate_unique_site_code-ends fuel state fresh preferred name domain enough few =
    let base = base_code fresh preferred name domain in
    let tries = suc (length state.site_ids_by_code) in
    elim (Option-cases (free_code_from fuel state base 0)) [
      | inr (found, e) ↦ (
        found,
        rw (e, generate_unique_site_code) refl,
        not_taken state found (free_code_from-free fuel state base 0 found e),
      )
      | inl e ↦
          let all : (i : ℕ) → i < tries → contains (candidate base i) (taken_codes state) ≡ true =
            λ i below. get-contains (candidate base i) state.site_ids_by_code (
              subst (λ k. is_taken state (candidate base k) ≡ true) (omega arith)
                (free_code_from-none fuel state base 0 e i (omega arith))) in
          absurd (
            ground (
              arith,
              pigeonhole (candidate base) tries (taken_codes state)
                  (λ i j below below'. candidate_inj base i j (omega arith) (omega arith)) all,
              length-map (λ (entry : String × Uuid). entry.0) state.site_ids_by_code,
            ))
    ]
