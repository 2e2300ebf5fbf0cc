-- ===== src/Deploy/Booking.antt =====
-- src/workflows/src/deploy_booking/mod.rs: `BookingTask::run`. The row of the aggregate and its instances are
-- arguments, and so is whether the SingleHostDeploy of an instance returns `Ok`; the results of the
-- other tasks that it spawns are only mailed. The result is the aggregate as it is written back.
-- Left out: what the tasks that it spawns do to the tables meanwhile, and the second read of the aggregate
-- and its write, which may fail.
pub mod Books
mod Tests
use laas_reflab.Prelude.{ℕ, String, Bool, true, false, ◌&&◌, List, [], ◌∷◌}
use laas_reflab.Dal.Transaction.{
  M, ◌>>=◌, ◌>>◌, pure, expect, Ending, commits, transaction, ok, err,
}
use laas_reflab.Models.Dashboard.{active}
use laas_reflab.Models.Dashboard.Aggregate.{Aggregate}
use laas_reflab.Models.Dashboard.Instance.{Instance}
use laas_reflab.Allocation.Db.{Db, Env}
use laas_reflab.Allocation.Allocator.{allocate_vpn}

-- Whether no result is an error.
abbrev pub all_deployed : {J : Type 0} → (ℕ → Bool) → List (Instance J) → Bool
all_deployed deployed [] = true
all_deployed deployed (i ∷ rest) = deployed i.id && all_deployed deployed rest

abbrev pub conclude : Aggregate → Bool → Ending Aggregate
conclude agg true = commits (ok (record agg { state = active }))
conclude agg false = commits (err "Failed to provision some host")

module _ (env : Env) where
  abbrev pub give_vpns : ℕ → String → List String → M Db (Unit {0})
  give_vpns agg project [] = pure tt
  give_vpns agg project (user ∷ rest) = do
    expect (allocate_vpn env agg user project)
    give_vpns agg project rest

  unfoldable pub run : {J : Type 0} → (ℕ → Bool) → Aggregate → List (Instance J) → M Db Aggregate
  run deployed agg instances = transaction (do
    give_vpns agg.id agg.origin agg.users
    pure (conclude agg (all_deployed deployed instances)))
