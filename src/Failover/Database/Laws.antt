-- ===== src/Failover/Database/Laws.antt =====
-- A transaction is all or nothing.
use pingora_mesh.Base.{◌≡◌, String, arith, ok, err}
use pingora_mesh.Failover.Database.{World, Act, advance, transaction}

-- A transaction that fails leaves the tables as they were.
pub transaction-rolled_back :
    {A : Type 0} (act : Act A) (world : World) (e : String)
    → (transaction act world).0 ≡ err e
    → (transaction act world).1.tables ≡ world.tables
unfolding transaction
transaction-rolled_back act world e failed = ground arith

-- One that succeeds ran its statements to their end and kept what they wrote.
pub transaction-committed :
    {A : Type 0} (act : Act A) (world : World) (a : A)
    → (transaction act world).0 ≡ ok a
    → (act (advance world)).0 ≡ ok a
      × (transaction act world).1.tables ≡ (act (advance world)).1.tables
unfolding transaction
transaction-committed act world a done = ground arith
