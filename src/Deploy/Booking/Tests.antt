-- ===== src/Deploy/Booking/Tests.antt =====
-- Runs of `BookingTask` for two users, with a host that is provisioned and one that may not be.
use laas_reflab.Prelude.{
  ℕ, ◌≡◌, refl, String, Bool, true, false, Option, none, some, List, [], ◌∷◌, ◌==◌,
}
use laas_reflab.Dal.Transaction.{ok, err, Session}
use laas_reflab.Models.Dashboard.{LifeCycleState, active, new}
use laas_reflab.Models.Dashboard.Aggregate.{Aggregate}
use laas_reflab.Models.Dashboard.Instance.{Instance}
use laas_reflab.Allocation.Db.{Db, get_handle, insert_allocation, insert_handle, insert_token}
use laas_reflab.Allocation.Handle.{allocate_one, find_one_available, make_vpn_access, add_resource}
use laas_reflab.Allocation.Handle.Tests.{test_env, unused}
use laas_reflab.Allocation.Allocator.{allocate_vpn}
use laas_reflab.Deploy.Booking.{run}

abbrev booking : LifeCycleState → List String → Aggregate
booking state users = record {
  id = 50;
  deleted = false;
  users = users;
  vlans = 0;
  template = 0;
  metadata = record {
    booking_id = none;
    owner = none;
    lab = none;
    purpose = none;
    project = none;
    start = none;
    end = none;
  };
  state = state;
  configuration = record { ipmi_username = ""; ipmi_password = "" };
  origin = "ci";
}

abbrev instance_on : ℕ → Option ℕ → Instance String
instance_on id host = record {
  id = id;
  within_template = 0;
  aggregate = 50;
  network_data = 0;
  linked_host = host;
  config = record { hostname = "node"; flavor = 0; image = 0; cifile = []; connections = [] };
  metadata = [];
}

abbrev instances : List (Instance String)
instances = instance_on 80 (some 1) ∷ instance_on 81 (some 2) ∷ instance_on 82 none ∷ []

abbrev people : List String
people = "ada" ∷ "alan" ∷ []

abbrev first_only : ℕ → Bool
first_only i = i == 80

abbrev failed_run : Session Db
failed_run = (run test_env first_only (booking new people) instances unused).1

test_failed :
    run test_env first_only (booking new people) instances unused
    ≡ (err "Failed to provision some host", failed_run)
unfolding run allocate_vpn allocate_one find_one_available make_vpn_access add_resource insert_token
    insert_handle get_handle insert_allocation
test_failed = refl

test_done :
    (run test_env (λ i. true) (booking new people) instances unused).0 ≡ ok (booking active people)
unfolding run allocate_vpn allocate_one find_one_available make_vpn_access add_resource insert_token
    insert_handle get_handle insert_allocation
test_done = refl
