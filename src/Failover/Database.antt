-- ===== src/Failover/Database.antt =====
-- The database and the dns provider as the failover worker meets them: a statement, a commit or a
-- call may fail, as a schedule says; a transaction that is not committed leaves no trace; what was
-- sent to the provider stays sent.
pub mod Laws
use pingora_mesh.Base.{
  ℕ, String, Bool, true, false, List, [], ◌∷◌, ◌++◌, Result, ok, err, map_err, pure, ◌>>◌, Exec,
  if◌then◌else◌, Option, none, some,
}
use pingora_mesh.DnsProvider.{DnsRecordChange}
use pingora_mesh.Failover.Tables.{Tables}

-- `faults` says of each of the coming steps whether it fails; past its end none does.
pub record World : Type 0 where
  pub tables : Tables
  pub faults : List Bool
  pub sent : List DnsRecordChange

abbrev pub Act : Type 0 → Type 0
Act = Exec World String

abbrev pub fails : List Bool → Bool
fails [] = false
fails (b ∷ bs) = b

abbrev pub rest : List Bool → List Bool
rest [] = []
rest (b ∷ bs) = bs

abbrev pub advance : World → World
advance world = record world { faults = rest world.faults }

-- A query, and a statement that writes.
unfoldable pub query : {A : Type 0} → (Tables → A) → Act A
query f world =
    (if fails world.faults then err "database error" else ok (f world.tables), advance world)

unfoldable pub execute : (Tables → Tables) → Act (Unit {0})
execute f world =
    if fails world.faults
    then (err "database error", advance world)
    else (ok tt, record world { tables = f world.tables; faults = rest world.faults })

-- A call of the provider: a change that it takes is out of the database's hands.
unfoldable pub send : DnsRecordChange → Act (Unit {0})
send change world =
    if fails world.faults
    then (err "dns provider error", advance world)
    else (ok tt, record world { faults = rest world.faults; sent = world.sent ++ change ∷ [] })

abbrev pub rolled_back : Tables → World → World
rolled_back tables world = record world { tables = tables }

-- The end of a transaction that began with `tables`: it commits, or it is dropped.
abbrev pub settle : {A : Type 0} → Tables → Result String A → World → Result String A × World
settle tables (err e) world = (err e, rolled_back tables world)
settle tables (ok a) world =
    if fails world.faults
    then (err "commit failed", rolled_back tables (advance world))
    else (ok a, advance world)

-- `pool.begin()`, the statements, `tx.commit()`.
unfoldable pub transaction : {A : Type 0} → Act A → Act A
transaction act world =
    if fails world.faults
    then (err "database error", advance world)
    else let (result, after) = act (advance world) in settle world.tables result after

-- `with_context`: the message in place of the error's own.
unfoldable pub with_context : {A : Type 0} → String → Act A → Act A
with_context message act world =
    let (result, after) = act world in (map_err (λ _. message) result, after)

-- A loop of statements, which the first error ends.
unfoldable pub for_each : {A : Type 0} → (A → Act (Unit {0})) → List A → Act (Unit {0})
for_each body [] = pure tt
for_each body (a ∷ rest_of) = do body a; for_each body rest_of
