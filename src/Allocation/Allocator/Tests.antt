-- ===== src/Allocation/Allocator/Tests.antt =====
-- Runs of allocator.rs, on the laboratory of the tests of allocation.rs.
use laas_reflab.Prelude.{ℕ, ◌≡◌, refl, arith, false, none, some, List, [], ◌∷◌}
use laas_reflab.Dal.Transaction.{ok, err, Session}
use laas_reflab.Allocation.Db.{
  Allocation, for_booking, Network, NetworkAssignmentMap, Db, get_network, get_map, update_map,
  get_handle, insert_allocation, find,
}
use laas_reflab.Allocation.Handle.{
  granted, query, query_free, allocation_is_allowed, find_vlan, find_one_available, allocate_one,
  vlan_by_characteristics,
}
use laas_reflab.Allocation.Handle.Found.{Inv}
use laas_reflab.Allocation.Handle.Free.{live_count}
use laas_reflab.Allocation.Handle.Tests.{test_env, first_vlan, lab, at, unused, unused-Inv}
use laas_reflab.Allocation.Allocator.{allocate_vlan_internal, allocate_vlans_for}
use laas_reflab.Allocation.Allocator.Keeping.{Call, calls, calls-Inv}
use laas_reflab.Allocation.Allocator.Vlans.{Assigned, allocate_vlans_for_assigns}
use laas_reflab.Allocation.Allocator.Rollback.{allocate_vlans_for_leaks}

abbrev one_vlan : Session Db
one_vlan = at 2 (granted 100 11 (some 50) 1001 for_booking ∷ [])

abbrev assigned_map : NetworkAssignmentMap
assigned_map = record { id = 70; networks = (60, 2) ∷ (61, 3) ∷ [] }

abbrev two_vlans : Session Db
two_vlans = record {
  db =
      record (lab (
        granted 100 11 (some 50) 1001 for_booking
        ∷ granted 102 12 (some 50) 1003 for_booking
        ∷ [])) { network_assignments = assigned_map ∷ [] };
  draws = 4;
}

test_vlans : allocate_vlans_for test_env [] 50 (60 ∷ 61 ∷ []) 70 unused ≡ (ok tt, two_vlans)
unfolding allocate_vlans_for get_map get_network update_map allocate_vlan_internal allocate_one
    find_one_available find_vlan query_free query get_handle allocation_is_allowed find
    insert_allocation
test_vlans = refl

test_first_vlan :
    allocate_vlan_internal test_env [] (some 50) false none for_booking unused
    ≡ (ok (2, first_vlan), one_vlan)
unfolding allocate_vlan_internal allocate_one find_one_available find_vlan query_free query
    get_handle allocation_is_allowed find insert_allocation
test_first_vlan = refl

abbrev a_booking : List Call
a_booking =
    Call.host 5 50 for_booking
    ∷ Call.vlans_for 50 (60 ∷ 61 ∷ []) 70
    ∷ Call.host 5 51 for_booking
    ∷ Call.release_all 50
    ∷ []

calls-Inv_example : Inv (calls test_env [] a_booking unused).db
calls-Inv_example = calls-Inv test_env [] a_booking unused unused-Inv

allocate_vlans_for_assigns_example :
    (map : NetworkAssignmentMap) × (get_map 70 unused ≡ (ok map, unused))
    × Assigned 50 (60 ∷ 61 ∷ []) map unused two_vlans
allocate_vlans_for_assigns_example =
    allocate_vlans_for_assigns test_env [] 50 (60 ∷ 61 ∷ []) 70 unused unused-Inv test_vlans

-- Only one of the two VLANs is free.
abbrev taken : Allocation
taken = granted 90 12 (some 51) 900 for_booking

abbrev one_free : Session Db
one_free = at 0 (taken ∷ [])

abbrev one_left : Session Db
one_left = at 2 (taken ∷ granted 100 11 (some 50) 1001 for_booking ∷ [])

one_free-Inv : Inv one_free.db
one_free-Inv = record { one_holder = λ r. ground arith; known = λ r e. ground arith }

test_one_vlan :
    allocate_vlan_internal test_env [] (some 50) false none for_booking one_free
    ≡ (ok (2, first_vlan), one_left)
unfolding allocate_vlan_internal allocate_one find_one_available find_vlan query_free query
    get_handle allocation_is_allowed find insert_allocation
test_one_vlan = refl

test_no_vlan :
    allocate_one test_env (vlan_by_characteristics false false) (some 50) for_booking [] one_left
    ≡ (err "no matching vlan by the given constraints was found", one_left)
unfolding allocate_one find_one_available find_vlan query_free query get_handle
    allocation_is_allowed find insert_allocation
test_no_vlan = refl

abbrev private_network : ℕ → Network
private_network id = record { id = id; public = false }

test_get_map : get_map 70 one_free ≡ (ok (record { id = 70; networks = [] }), one_free)
unfolding get_map
test_get_map = refl

test_get_network : get_network 60 one_free ≡ (ok (private_network 60), one_free)
unfolding get_network
test_get_network = refl

test_next_network : get_network 61 one_left ≡ (ok (private_network 61), one_left)
unfolding get_network
test_next_network = refl

allocate_vlans_for_leaks_example :
    (allocate_vlans_for test_env [] 50 (60 ∷ 61 ∷ []) 70 one_free
      ≡ (err "Failed to allocate all vlans", one_left))
    × (live_count 11 one_left.db.allocations ≡ 1)
allocate_vlans_for_leaks_example =
    allocate_vlans_for_leaks test_env [] 50 60 61 [] 70 one_free (record { id = 70; networks = [] })
      (private_network 60) (private_network 61) 2 first_vlan one_left one_left
      "no matching vlan by the given constraints was found" one_free-Inv test_get_map
      test_get_network test_one_vlan test_next_network test_no_vlan
