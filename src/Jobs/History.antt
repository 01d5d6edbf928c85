-- ===== src/Jobs/History.antt =====
-- Sequences of calls of `JobV1Store` by any number of clients (openpine/jobs/transactional_store.py).
-- Each method holds the store's lock for the whole of its transaction, so an interleaving of clients
-- is a list of calls.
use openpine.Jobs.Table.{rowcount, update_row, find_row}
use openpine.Base.Text.{show_nat}
use openpine.Jobs.Tx.{transaction}
use openpine.Jobs.Store.{
  stable_event_id, require_live_lease, require_version, transition_in_transaction,
  get_in_transaction,
}
use openpine.Jobs.Model.{allowed, Db, Contracts}
use openpine.Jobs.Create
use openpine.Jobs.Ops
use openpine.Jobs.Recover
use openpine.Jobs.Create.{Request}
use openpine.Base.{◌∷◌, [], List, Option, String, ℕ}

pub data Command : Type 0 where
  create : Request → ℕ → Command
  mark_running : String → String → ℕ → ℕ → Option ℕ → Command
  renew_lease : String → String → ℕ → ℕ → Option ℕ → Command
  mark_succeeded : String → String → Option ℕ → ℕ → List String → Command
  mark_failed : String → String → Option String → Option ℕ → ℕ → Command
  cancel : String → Option String → ℕ → ℕ → Command
  retry : String → ℕ → Command
  recover_lost_leases : ℕ → Command

-- the database after one call, whether it returns or raises
unfoldable pub execute : Contracts → Command → Db → Db
unfolding Create.create Ops.mark_running Ops.renew_lease Ops.mark_succeeded Ops.mark_failed
    Ops.cancel Ops.retry Recover.recover_lost_leases get_in_transaction transition_in_transaction
    transaction require_version require_live_lease stable_event_id show_nat allowed find_row
    update_row rowcount
execute c (create r now) db = (Create.create c r now db).1
execute c (mark_running id owner deadline now expected) db =
    (Ops.mark_running c id owner deadline now expected db).1
execute c (renew_lease id owner deadline now expected) db =
    (Ops.renew_lease c id owner deadline now expected db).1
execute c (mark_succeeded id owner expected now refs) db =
    (Ops.mark_succeeded c id owner expected now refs db).1
execute c (mark_failed id code owner expected now) db =
    (Ops.mark_failed c id code owner expected now db).1
execute c (cancel id key now finished) db = (Ops.cancel c id key now finished db).1
execute c (retry id now) db = (Ops.retry c id now db).1
execute c (recover_lost_leases now) db = (Recover.recover_lost_leases c now db).1

unfoldable pub run : Contracts → List Command → Db → Db
run c [] db = db
run c (x ∷ xs) db = run c xs (execute c x db)

-- the database of a new store
abbrev pub empty : Db
empty = record { jobs = []; events = []; last_seq = 0 }
