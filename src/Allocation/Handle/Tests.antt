-- ===== src/Allocation/Handle/Tests.antt =====
-- Runs of allocation.rs, on one host and two VLANs.
use laas_reflab.Prelude.{ℕ, ◌+◌, ◌≡◌, refl, arith, ◌≤◌, false, none, some, List, [], ◌∷◌}
use laas_reflab.Dal.Transaction.{ok, err, Session}
use laas_reflab.Allocation.Db.{
  ResourceHandle, ResourceHandleInner, Allocation, for_booking, Db, Env, get_handle,
  insert_allocation, update_allocation, find, all_for_aggregate, insert_handle, insert_token,
}
use laas_reflab.Allocation.Handle.{
  host_by_flavor, vpn_access, granted, query, query_free, allocation_is_allowed,
  find_host_by_flavor, find_one_available, allocate_one, deallocate_one, deallocate_each,
  deallocate_all_for, add_resource, make_vpn_access,
}
use laas_reflab.Allocation.Handle.Found.{Inv}
use laas_reflab.Allocation.Handle.Free.{live_count}
use laas_reflab.Allocation.Handle.Grants.{Granted, allocate_one_grants, allocate_one_fails}
use laas_reflab.Allocation.Handle.Releases.{Released, deallocate_one_fails, deallocate_one_ends}
use laas_reflab.Allocation.Handle.ReleaseAll.{held_count, deallocate_all_releases}

abbrev pub test_env : Env
test_env = record { uuid = λ n. n + 100; clock = λ n. n + 1000; rows = λ l. l; shuffle = λ l. l }

abbrev pub server : ResourceHandle
server = record { id = 10; tracks = ResourceHandleInner.host 1 }

abbrev pub first_vlan : ResourceHandle
first_vlan = record { id = 11; tracks = ResourceHandleInner.private_vlan 2 }

abbrev pub lab : List Allocation → Db
lab allocations = record {
  hosts = record { id = 1; flavor = 5 } ∷ [];
  vlans = record { id = 2; public_config = none } ∷ record { id = 3; public_config = none } ∷ [];
  vpn_tokens = [];
  resource_handles =
      server ∷ first_vlan ∷ record { id = 12; tracks = ResourceHandleInner.private_vlan 3 } ∷ [];
  allocations = allocations;
  aggregates = 50 ∷ 51 ∷ [];
  networks = record { id = 60; public = false } ∷ record { id = 61; public = false } ∷ [];
  network_assignments = record { id = 70; networks = [] } ∷ [];
}

abbrev pub at : ℕ → List Allocation → Session Db
at draws allocations = record { db = lab allocations; draws = draws }

abbrev pub unused : Session Db
unused = at 0 []

pub unused-Inv : Inv unused.db
unused-Inv = record { one_holder = λ r. omega arith; known = λ r e. refl }

abbrev booked : Allocation
booked = granted 100 10 (some 50) 1001 for_booking

abbrev with_server : Session Db
with_server = at 2 (booked ∷ [])

abbrev server_back : Session Db
server_back = at 3 (record booked { ended = some 1002 } ∷ [])

test_allocate :
    allocate_one test_env (host_by_flavor 5) (some 50) for_booking [] unused
    ≡ (ok server, with_server)
unfolding allocate_one find_one_available find_host_by_flavor query_free query get_handle
    allocation_is_allowed find insert_allocation
test_allocate = refl

-- A second booking finds no host.
test_allocate_none :
    allocate_one test_env (host_by_flavor 5) (some 51) for_booking [] with_server
    ≡ (err "no matching host by the given constraints was found", with_server)
unfolding allocate_one find_one_available find_host_by_flavor query_free query get_handle
    allocation_is_allowed find insert_allocation
test_allocate_none = refl

-- A token and a handle are added before the grant for an unknown aggregate fails.
test_allocate_undone :
    allocate_one test_env (vpn_access "ci" "ada") (some 99) for_booking [] unused
    ≡ (err "constraint violated", at 4 [])
unfolding allocate_one find_one_available make_vpn_access add_resource insert_token insert_handle
    get_handle insert_allocation
test_allocate_undone = refl

test_deallocate : deallocate_one test_env (some 50) 10 with_server ≡ (ok tt, server_back)
unfolding deallocate_one find get_handle update_allocation
test_deallocate = refl

test_deallocate_other :
    deallocate_one test_env (some 51) 10 with_server
    ≡ (err "The matching allocation is not from the given aggregate!", with_server)
unfolding deallocate_one find get_handle update_allocation
test_deallocate_other = refl

test_deallocate_all : deallocate_all_for test_env 50 with_server ≡ (ok tt, server_back)
unfolding deallocate_all_for deallocate_each all_for_aggregate deallocate_one find get_handle
    update_allocation
test_deallocate_all = refl

with_server-Inv : Inv with_server.db
with_server-Inv = record { one_holder = λ r. ground arith; known = λ r e. ground arith }

allocate_one_grants_example : Granted (some 50) for_booking unused server with_server
allocate_one_grants_example =
    allocate_one_grants test_env (host_by_flavor 5) (some 50) for_booking [] unused unused-Inv
      test_allocate

allocate_one_fails_example : (at 4 []).db ≡ unused.db
allocate_one_fails_example =
    allocate_one_fails test_env (vpn_access "ci" "ada") (some 99) for_booking [] unused
      test_allocate_undone (λ h. ground arith)

deallocate_one_fails_example : with_server.db ≡ with_server.db
deallocate_one_fails_example =
    deallocate_one_fails test_env (some 51) 10 with_server test_deallocate_other (ground arith)

deallocate_one_ends_example :
    Released test_env (some 50) 10 with_server server_back
    × (live_count 11 server_back.db.allocations ≡ live_count 11 with_server.db.allocations)
deallocate_one_ends_example =
    deallocate_one_ends test_env (some 50) 10 with_server 11 with_server-Inv (refl, tt)
      test_deallocate

deallocate_all_releases_example :
    ((r : ℕ) → held_count 50 r server_back.db.allocations ≡ 0)
    × ((r : ℕ) → live_count r server_back.db.allocations ≤ live_count r with_server.db.allocations)
    × Inv server_back.db
deallocate_all_releases_example =
    deallocate_all_releases test_env 50 with_server with_server-Inv test_deallocate_all
