-- ===== src/Base/Map.antt =====
-- `HashMap` as an association list: the keys are compared by an `Eq`, and the values are walked in
-- the order of the list, one of the orders that the iterator may take.
use mathlib.Core.Path.{◌≡◌, refl, subst}
use mathlib.Core.Logic.{inl, inr}
use mathlib.Core.Bool.{Bool, true, false, not}
use mathlib.Core.Option.{Option, none, some}
use mathlib.Core.List.{List, [], ◌∷◌}
use native.Mathlib.Omega.{arith}
use pingora_mesh.Base.Tests.{if◌then◌else◌, Bool-cases}
use pingora_mesh.Base.Equality.{Eq, ◌==◌}
use pingora_mesh.Base.Lists.{All, some_inj}

abbrev pub Map {ℓ κ} : Type ℓ → Type κ → Type (ℓ ⊔ κ)
Map K V = List (K × V)

module _ {ℓ κ} {K : Type ℓ} {V : Type κ} where
  abbrev pub empty : Map K V
  empty = []

  abbrev pub is_empty : Map K V → Bool
  is_empty [] = true
  is_empty (e ∷ m) = false

  unfoldable pub values : Map K V → List V
  values [] = []
  values ((k, v) ∷ m) = v ∷ values m

  -- `values_mut`, with what the loop's body makes of each value.
  unfoldable pub map_values : (V → V) → Map K V → Map K V
  map_values f [] = []
  map_values f ((k, v) ∷ m) = (k, f v) ∷ map_values f m

module _ {ℓ κ} {K : Type ℓ} {V : Type κ} ⦃eq : Eq K⦄ where
  unfoldable pub get : K → Map K V → Option V
  get k [] = none
  get k ((j, v) ∷ m) = if j == k then some v else get k m

  unfoldable pub insert : K → V → Map K V → Map K V
  insert k v [] = (k, v) ∷ []
  insert k v ((j, w) ∷ m) = if j == k then (k, v) ∷ m else (j, w) ∷ insert k v m

  -- `retain`, by a test on the key and the value.
  unfoldable pub retain : (K → V → Bool) → Map K V → Map K V
  retain p [] = []
  retain p ((j, v) ∷ m) = let rest = retain p m in if p j v then (j, v) ∷ rest else rest

  unfoldable pub remove : K → Map K V → Map K V
  unfolding retain
  remove k m = retain (λ j v. not (j == k)) m

module _ {ℓ κ} {K : Type ℓ} {V : Type κ} ⦃eq : Eq K⦄ where
  pub get-insert :
      (k j : K) (v : V) (m : Map K V) → get j (insert k v m) ≡ (if k == j then some v else get j m)
  unfolding get insert
  get-insert k j v [] = refl
  get-insert k j v ((i, w) ∷ m) =
      ground (arith, eq.beq_iff k j, eq.beq_iff i k, eq.beq_iff i j, get-insert k j v m)

  pub get-remove : (k j : K) (m : Map K V) → get j (remove k m) ≡ (if k == j then none else get j m)
  unfolding get remove
  get-remove k j [] = ground arith
  get-remove k j ((i, w) ∷ m) =
      ground (arith, eq.beq_iff k j, eq.beq_iff i k, eq.beq_iff i j, get-remove k j m)

  pub get-map_values :
      (f : V → V) (j : K) (m : Map K V)
      → get j (map_values f m) ≡ elim (get j m) [ none ↦ none | some v ↦ some (f v) ]
  unfolding get map_values
  get-map_values f j [] = refl
  get-map_values f j ((i, w) ∷ m) = ground (arith, get-map_values f j m)

  pub get-empty : (k : K) → get k (empty {V = V}) ≡ none
  unfolding get
  get-empty k = refl

  -- A value that is found satisfies what all values satisfy.
  pub All-get :
      (P : V → Type κ) (k : K) (m : Map K V) (v : V) → get k m ≡ some v → All P (values m) → P v
  unfolding get values
  All-get P k [] v h all = ground arith
  All-get P k ((j, w) ∷ m) v h (p, all) = elim (Bool-cases (j == k)) [
    | inl e ↦ subst P (some_inj (rw e at h)) p
    | inr e ↦ All-get P k m v (rw e at h) all
  ]

  -- A predicate of all values, where a value is written.
  pub All-insert :
      (P : V → Type κ) (k : K) (v : V) (m : Map K V)
      → P v
      → All P (values m)
      → All P (values (insert k v m))
  unfolding insert values
  All-insert P k v [] h all = (h, tt)
  All-insert P k v ((j, w) ∷ m) h (p, all) = elim (Bool-cases (j == k)) [
    | inl e ↦ rw e (h, all)
    | inr e ↦ rw e (p, All-insert P k v m h all)
  ]

  pub All-map_values :
      (P : V → Type κ) (f : V → V) (m : Map K V)
      → ((v : V) → P v → P (f v))
      → All P (values m)
      → All P (values (map_values f m))
  unfolding map_values values
  All-map_values P f [] step all = tt
  All-map_values P f ((j, w) ∷ m) step (p, all) = (step w p, All-map_values P f m step all)

  -- `retain` finds only what passes the test, and keeps what is found and passes.
  pub get-retain :
      (p : K → V → Bool) (k : K) (v : V) (m : Map K V) → get k (retain p m) ≡ some v → p k v ≡ true
  unfolding get retain
  get-retain p k v [] found = ground arith
  get-retain p k v ((j, w) ∷ m) found = elim (Bool-cases (p j w)) [
    | inl passes ↦ elim (Bool-cases (j == k)) [
      | inl e ↦
          let same : w ≡ v = some_inj (rw (passes, e) at found) in
          let key : j ≡ k = (eq.beq_iff j k).0 e in rw (← same, ← key) passes
      | inr e ↦ get-retain p k v m (rw (passes, e) at found)
    ]
    | inr fails ↦ get-retain p k v m (rw fails at found)
  ]

  pub retain-get :
      (p : K → V → Bool) (k : K) (v : V) (m : Map K V)
      → get k m ≡ some v
      → p k v ≡ true
      → get k (retain p m) ≡ some v
  unfolding get retain
  retain-get p k v [] found passes = found
  retain-get p k v ((j, w) ∷ m) found passes = elim (Bool-cases (j == k)) [
    | inl e ↦
        let same : w ≡ v = some_inj (rw e at found) in
        let key : j ≡ k = (eq.beq_iff j k).0 e in
        let stays : p j w ≡ true = rw (same, key) passes in rw (stays, e) (rw e at found)
    | inr e ↦
        let rest = retain-get p k v m (rw e at found) passes in
        elim (Bool-cases (p j w)) [ inl stays ↦ rw (stays, e) rest | inr fails ↦ rw fails rest ]
  ]

pub ruleset map_laws = (get-insert, get-remove, get-map_values, get-empty)
