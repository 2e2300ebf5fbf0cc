-- ===== src/Deploy/Cleanup/Tests.antt =====
-- A run of `CleanupAggregate` on a booking that holds one of its two hosts.
use laas_reflab.Prelude.{ℕ, ◌≡◌, refl, arith, String, false, Option, none, some, List, [], ◌∷◌, All}
use laas_reflab.Dal.Transaction.{ok, panicked, Session}
use laas_reflab.Models.Dashboard.{LifeCycleState, active, new, done}
use laas_reflab.Models.Dashboard.Aggregate.{Aggregate}
use laas_reflab.Models.Dashboard.Instance.{Instance}
use laas_reflab.Allocation.Db.{
  Db, for_booking, find, get_handle, update_allocation, all_for_aggregate,
}
use laas_reflab.Allocation.Handle.{
  granted, deallocate_one, deallocate_each, deallocate_all_for, handle_tracking, currently_owned_by,
}
use laas_reflab.Allocation.Handle.Found.{Inv}
use laas_reflab.Allocation.Handle.ReleaseAll.{held_count}
use laas_reflab.Allocation.Handle.Tests.{test_env, at}
use laas_reflab.Allocation.Allocator.{deallocate_aggregate}
use laas_reflab.Deploy.Cleanup.{handle_for_host, run}
use laas_reflab.Deploy.Cleanup.Cleans.{Own, run_cleans}

abbrev booking : LifeCycleState → Aggregate
booking state = record {
  id = 50;
  deleted = false;
  users = [];
  vlans = 0;
  template = 0;
  metadata = record {
    booking_id = none;
    owner = none;
    lab = none;
    purpose = none;
    project = none;
    start = none;
    end = none;
  };
  state = state;
  configuration = record { ipmi_username = ""; ipmi_password = "" };
  origin = "";
}

abbrev instance_on : ℕ → Option ℕ → Instance String
instance_on id host = record {
  id = id;
  within_template = 0;
  aggregate = 50;
  network_data = 0;
  linked_host = host;
  config = record { hostname = "node"; flavor = 0; image = 0; cifile = []; connections = [] };
  metadata = [];
}

abbrev instances : List (Instance String)
instances = instance_on 80 (some 1) ∷ instance_on 81 (some 2) ∷ instance_on 82 none ∷ []

-- The VLAN 2 stands for a host whose handle is another aggregate's.
abbrev in_use : Session Db
in_use =
    at 2
      (granted 100 10 (some 50) 1001 for_booking ∷ granted 101 11 (some 51) 1001 for_booking ∷ [])

abbrev cleaned_up : Session Db
cleaned_up = at 3 (
    record (granted 100 10 (some 50) 1001 for_booking) { ended = some 1002 }
    ∷ granted 101 11 (some 51) 1001 for_booking
    ∷ [])

in_use-Inv : Inv in_use.db
in_use-Inv = record { one_holder = λ r. ground arith; known = λ r e. ground arith }

test_run :
    run test_env (booking active) instances in_use ≡ (ok ((80, 1) ∷ [], booking done), cleaned_up)
unfolding run handle_for_host handle_tracking currently_owned_by all_for_aggregate
    deallocate_aggregate deallocate_all_for deallocate_each deallocate_one find get_handle
    update_allocation
test_run = refl

-- A booking that is still being provisioned is left alone.
test_new : (run test_env (booking new) instances in_use).0 ≡ panicked
unfolding run
test_new = refl

run_cleans_example :
    (◌≡◌ {A = LifeCycleState} active active)
    × All (Own 50 in_use.db) ((80, 1) ∷ [])
    × ((r : ℕ) → held_count 50 r cleaned_up.db.allocations ≡ 0)
    × Inv cleaned_up.db
    × (booking done ≡ record (booking active) { state = done })
run_cleans_example = run_cleans test_env (booking active) instances in_use in_use-Inv test_run
