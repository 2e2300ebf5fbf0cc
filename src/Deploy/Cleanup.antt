-- ===== src/Deploy/Cleanup.antt =====
-- src/workflows/src/cleanup_booking/mod.rs: `CleanupAggregate::run`, over the allocator. The rows of the aggregate
-- and of its instances are arguments; the result has the hosts for which a CleanupHost was spawned, and
-- the aggregate as it is written back. The results of the spawned tasks are not used; the logs are left out.
pub mod Cleans
mod Tests
use laas_reflab.Prelude.{ℕ, Bool, true, false, Option, none, some, List, [], ◌∷◌}
use laas_reflab.Dal.Transaction.{
  M, ◌>>=◌, ◌>>◌, pure, panics, ok_or, expect, Ending, commits, transaction, ok,
}
use laas_reflab.Models.Dashboard.{LifeCycleState, active, new, done}
use laas_reflab.Models.Dashboard.Aggregate.{Aggregate}
use laas_reflab.Models.Dashboard.Instance.{Instance}
use laas_reflab.Allocation.Db.{Db, Env, ResourceHandle}
use laas_reflab.Allocation.Handle.{handle_tracking, currently_owned_by}
use laas_reflab.Allocation.Allocator.{deallocate_aggregate}

-- An instance and its host.
abbrev pub Cleaned : Type 0
Cleaned = List (ℕ × ℕ)

abbrev pub spawn_if : Bool → ℕ × ℕ → M Db Cleaned → M Db Cleaned
spawn_if false x next = next
spawn_if true x next = do rest ← next; pure (x ∷ rest)

module _ (env : Env) where
  unfoldable pub handle_for_host : ℕ → M Db ResourceHandle
  handle_for_host host = do
    row ← handle_tracking env host
    ok_or "No resource handle existed for host" row

  abbrev pub clean_host : ℕ → ℕ → Option ℕ → M Db Cleaned → M Db Cleaned
  clean_host agg instance_id none next = next
  clean_host agg instance_id (some host) next = do
    handle ← handle_for_host host
    owned ← currently_owned_by env handle agg
    spawn_if owned (instance_id, host) next

  abbrev pub clean_each : {J : Type 0} → ℕ → List (Instance J) → M Db Cleaned
  clean_each agg [] = pure []
  clean_each agg (i ∷ rest) = clean_host agg i.id i.linked_host (clean_each agg rest)

  abbrev pub clean_up :
      {J : Type 0} → Aggregate → List (Instance J) → M Db (Ending (Cleaned × Aggregate))
  clean_up agg instances = do
    cleaned ← clean_each agg.id instances
    expect (deallocate_aggregate env agg.id)
    pure (commits (ok (cleaned, record agg { state = done })))

  -- The test of the state, and what follows.
  abbrev pub when_active :
      LifeCycleState → M Db (Ending (Cleaned × Aggregate)) → M Db (Ending (Cleaned × Aggregate))
  when_active active next = next
  when_active new next = panics
  when_active done next = panics

  unfoldable pub run : {J : Type 0} → Aggregate → List (Instance J) → M Db (Cleaned × Aggregate)
  run agg instances = transaction (when_active agg.state (clean_up agg instances))
