-- ===== src/Hub/Service/Bindings/Laws.antt =====
-- What the saved bindings of a site satisfy: one primary, no node twice, in the order of priorities.
use pingora_mesh.Base.{
  ℕ, ◌+◌, ◌≤◌, ◌≡◌, ◌⊎◌, refl, String, Bool, true, false, Option, some, List, [], ◌∷◌, ok, arith,
  nat_eq, string_eq, contains, count_if, count_if_mono, count_if-sort_by, All, All-sort_by, sort_by,
  IsSortedBy, sort_by-IsSortedBy, Bool-cases, Result-cases, ◌∙◌, ◌&&◌, ◌||◌, inl, inr,
  if◌then◌else◌, nat_beq_iff, ◌==◌,
}
use pingora_mesh.Base.Int.{ℤ, add_i32, pos}
use pingora_mesh.Base.Order.{IsCmp-IsPreorder, IsCmp-key, IsCmp-cmp_ℤ}
use pingora_mesh.Domain.{Uuid}
use pingora_mesh.Hub.Records.{SiteBindingRecord}
use pingora_mesh.Hub.Service.Bindings.{
  SiteBindingItem, is_node, is_primary, le_priority, normalize_binding_role, normalized,
  collect_bindings, normalize_site_bindings, renumber, kept_primary, switched_site_bindings,
  is_from,
}

-- A role that is saved.
abbrev pub IsRole : SiteBindingRecord → Type 0
IsRole b = (b.binding_role ≡ "primary") ⊎ (b.binding_role ≡ "standby")

-- What the loop hands on, from the nodes that it has seen.
record Collected (items : List SiteBindingItem) (seen : List Uuid)
    (bindings : List SiteBindingRecord) (primary_count : ℕ) : Type 0 where
  primaries : primary_count ≡ count_if is_primary bindings
  nodes :
      (n : Uuid)
      → count_if (is_node n) bindings ≡ count_if (λ (i : SiteBindingItem). i.node_id == n) items
  distinct : (n : Uuid) → count_if (is_node n) bindings + (if contains n seen then 1 else 0) ≤ 1
  roles : All IsRole bindings

-- The role of a binding that the loop accepts.
normalize_binding_role-cases :
    (raw role : String)
    → normalize_binding_role raw ≡ ok role
    → (role ≡ "primary") ⊎ (role ≡ "standby")
unfolding normalize_binding_role
normalize_binding_role-cases raw role h = ground arith

nil-Collected : (seen : List Uuid) → Collected [] seen [] 0
nil-Collected seen = record {
  primaries = refl;
  nodes = λ n. refl;
  distinct = λ n. ground arith;
  roles = tt;
}

cons-Collected :
    (item : SiteBindingItem) (role : String) (items : List SiteBindingItem) (seen : List Uuid)
    (bindings : List SiteBindingRecord) (primary_count : ℕ)
    → contains item.node_id seen ≡ false
    → (role ≡ "primary") ⊎ (role ≡ "standby")
    → Collected items (item.node_id ∷ seen) bindings primary_count
    → Collected
        (item ∷ items)
        seen
        (normalized item role ∷ bindings)
        (if role == "primary" then 1 + primary_count else primary_count)
unfolding contains
cons-Collected item role items seen bindings primary_count fresh known h = record {
  primaries = ground (arith, h.primaries);
  nodes = λ n. ground (arith, h.nodes n);
  distinct = λ n. elim (Bool-cases (item.node_id == n)) [
    | inl e ↦
        let same : item.node_id ≡ n = (nat_beq_iff item.node_id n).0 e in
        ground (arith, h.distinct n, rw same at fresh)
    | inr e ↦ ground (arith, h.distinct n)
  ];
  roles = (known, h.roles);
}

collect_bindings-Collected :
    (uuid_text : Uuid → String) (items : List SiteBindingItem) (seen : List Uuid)
    (bindings : List SiteBindingRecord) (primary_count : ℕ)
    → collect_bindings uuid_text items seen ≡ ok (bindings, primary_count)
    → Collected items seen bindings primary_count
unfolding collect_bindings
collect_bindings-Collected uuid_text [] seen bindings primary_count h =
    let none_left : bindings ≡ [] = ground arith in
    let none_counted : primary_count ≡ 0 = ground arith in
    rw (none_left, none_counted) (nil-Collected seen)
collect_bindings-Collected uuid_text (item ∷ items) seen bindings primary_count h =
    elim (Result-cases (normalize_binding_role item.binding_role)) [
      | inl (e, he) ↦ ground arith
      | inr (role, hr) ↦
          elim (Result-cases (collect_bindings uuid_text items (item.node_id ∷ seen))) [
            | inl (e, he) ↦ ground arith
            | inr ((bs, c), hc) ↦
                let fresh : contains item.node_id seen ≡ false = ground arith in
                let built : bindings ≡ normalized item role ∷ bs = ground arith in
                let counted : primary_count ≡ (if role == "primary" then 1 + c else c) =
                  ground arith in
                rw (built, counted)
                  (cons-Collected item role items seen bs c fresh
                    (normalize_binding_role-cases item.binding_role role hr)
                    (collect_bindings-Collected uuid_text items (item.node_id ∷ seen) bs c hc))
          ]
    ]

le_priority-IsSortedBy :
    (bindings : List SiteBindingRecord) → IsSortedBy le_priority (sort_by le_priority bindings)
le_priority-IsSortedBy bindings =
    sort_by-IsSortedBy le_priority
      (IsCmp-IsPreorder _ (IsCmp-key (λ (b : SiteBindingRecord). b.priority) _ IsCmp-cmp_ℤ))
      bindings

-- A list of bindings that is accepted has exactly one primary and names no node twice; it names
-- the nodes of the request, each role is `primary` or `standby`, and it is in the order of the
-- priorities.
pub normalize_site_bindings-ok :
    (uuid_text : Uuid → String) (raw : List SiteBindingItem) (bindings : List SiteBindingRecord)
    → normalize_site_bindings uuid_text raw ≡ ok bindings
    → (count_if is_primary bindings ≡ 1)
      × ((n : Uuid) → count_if (is_node n) bindings ≤ 1)
      × ((n : Uuid)
          → count_if (is_node n) bindings ≡ count_if (λ (i : SiteBindingItem). i.node_id == n) raw)
      × All IsRole bindings
      × IsSortedBy le_priority bindings
unfolding normalize_site_bindings
normalize_site_bindings-ok uuid_text raw bindings h =
    elim (Result-cases (collect_bindings uuid_text raw [])) [
      | inl (e, he) ↦ ground arith
      | inr ((bs, c), hc) ↦
          let collected = collect_bindings-Collected uuid_text raw [] bs c hc in
          let one : c ≡ 1 = ground arith in
          let sorted : bindings ≡ sort_by le_priority bs = ground arith in
          rw sorted (
            omega (arith, count_if-sort_by le_priority is_primary bs, collected.primaries),
            λ n. omega (arith, count_if-sort_by le_priority (is_node n) bs, collected.distinct n),
            λ n. count_if-sort_by le_priority (is_node n) bs ∙ collected.nodes n,
            All-sort_by le_priority IsRole bs collected.roles,
            le_priority-IsSortedBy bs,
          )
    ]

-- The role of a binding that the switch does not move.
demoted_role :
    (role : String) → ((if role == "primary" then "standby" else role) == "primary") ≡ false
demoted_role role = elim (Bool-cases (role == "primary")) [ inl e ↦ rw e refl | inr e ↦ rw e e ]

-- The loop of a switch makes no primary.
primaries-renumber :
    (target : Uuid) (previous : Option Uuid) (bindings : List SiteBindingRecord) (next : ℤ)
    → count_if is_primary (renumber target previous bindings next) ≡ 0
unfolding renumber
primaries-renumber target previous [] next = refl
primaries-renumber target previous (b ∷ bs) next =
    elim (Bool-cases (is_node target b || is_from previous b)) [
      | inl e ↦ rw e (primaries-renumber target previous bs next)
      | inr e ↦
          rw (e, demoted_role b.binding_role)
            (omega (arith, primaries-renumber target previous bs (add_i32 next (pos 100))))
    ]

-- It keeps the nodes that the switch does not move, and drops the others.
nodes-renumber :
    (target previous n : Uuid) (bindings : List SiteBindingRecord) (next : ℤ)
    → count_if (is_node n) (renumber target (some previous) bindings next)
      ≡ (if n == target || n == previous then 0 else count_if (is_node n) bindings)
unfolding renumber
nodes-renumber target previous n [] next = ground arith
nodes-renumber target previous n (b ∷ bs) next = ground (
  arith,
  nodes-renumber target previous n bs next,
  nodes-renumber target previous n bs (add_i32 next (pos 100)),
)

-- No binding that the loop writes is the primary of a node.
strays-renumber :
    (target : Uuid) (previous : Option Uuid) (bindings : List SiteBindingRecord) (next : ℤ)
    → count_if (λ b. is_primary b && is_node target b) (renumber target previous bindings next) ≡ 0
strays-renumber target previous bindings next = omega (
  arith,
  count_if_mono (λ b. is_primary b && is_node target b) is_primary
      (renumber target previous bindings next) (λ b h. ground arith),
  primaries-renumber target previous bindings next,
)

-- A switch between two different nodes makes the target the only primary, with one binding; the
-- old primary keeps one binding with the flag and none without it, and every other node has as many
-- bindings as before.
pub switched_site_bindings-nodes :
    (keep : Bool) (target previous : Uuid) (bindings : List SiteBindingRecord)
    → (previous == target) ≡ false
    → let after = switched_site_bindings keep target (some previous) bindings in
      (count_if is_primary after ≡ 1)
      × (count_if (λ b. is_primary b && is_node target b) after ≡ 1)
      × (count_if (is_node target) after ≡ 1)
      × (count_if (is_node previous) after ≡ (if keep then 1 else 0))
      × ((n : Uuid)
          → (n == target) ≡ false
          → (n == previous) ≡ false
          → count_if (is_node n) after ≡ count_if (is_node n) bindings)
unfolding switched_site_bindings kept_primary
switched_site_bindings-nodes true target previous bindings distinct = rw distinct (
  ground (arith, primaries-renumber target (some previous) sorted (pos 300)),
  ground (arith, strays-renumber target (some previous) sorted (pos 300)),
  ground (arith, nodes-renumber target previous target sorted (pos 300)),
  ground (arith, nodes-renumber target previous previous sorted (pos 300)),
  λ n other away. ground (
    arith,
    nodes-renumber target previous n sorted (pos 300),
    count_if-sort_by le_priority (is_node n) bindings,
  ),
)
  where
    sorted : List SiteBindingRecord
    sorted = sort_by le_priority bindings
switched_site_bindings-nodes false target previous bindings distinct = (
  ground (arith, primaries-renumber target (some previous) sorted (pos 200)),
  ground (arith, strays-renumber target (some previous) sorted (pos 200)),
  ground (arith, nodes-renumber target previous target sorted (pos 200)),
  ground (arith, nodes-renumber target previous previous sorted (pos 200)),
  λ n other away. ground (
    arith,
    nodes-renumber target previous n sorted (pos 200),
    count_if-sort_by le_priority (is_node n) bindings,
  ),
)
  where
    sorted : List SiteBindingRecord
    sorted = sort_by le_priority bindings
