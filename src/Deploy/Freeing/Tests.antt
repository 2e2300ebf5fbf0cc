-- ===== src/Deploy/Freeing/Tests.antt =====
-- Runs of `free_hosts` and `mark_not_working` on one host that a booking holds.
use laas_reflab.Prelude.{◌≡◌, refl, arith, some, [], ◌∷◌}
use laas_reflab.Dal.Transaction.{ok, Session}
use laas_reflab.Allocation.Db.{
  Allocation, Db, for_booking, for_maintenance, find, get_handle, insert_allocation,
  update_allocation,
}
use laas_reflab.Allocation.Handle.{
  granted, deallocate_one, allocate_one, find_one_available, find_specific_host, handle_tracking,
  allocation_is_allowed,
}
use laas_reflab.Allocation.Handle.Free.{live_count}
use laas_reflab.Allocation.Handle.Found.{Inv}
use laas_reflab.Allocation.Handle.Tests.{test_env, server, first_vlan, at}
use laas_reflab.Allocation.Allocator.{deallocate_host, allocate_specific_host}
use laas_reflab.Deploy.Freeing.{
  free_hosts, mark_not_working, insert_map, insert_aggregate, get_host,
}
use laas_reflab.Deploy.Freeing.Ready.{Ready}
use laas_reflab.Deploy.Freeing.Frees.{free_hosts_frees}

abbrev held : Allocation
held = granted 100 10 (some 50) 1001 for_booking

abbrev in_booking : Session Db
in_booking = at 2 (held ∷ [])

in_booking-Inv : Inv in_booking.db
in_booking-Inv = record { one_holder = λ r. ground arith; known = λ r e. ground arith }

server-Ready : Ready test_env 50 10 in_booking
server-Ready = record {
  row = held;
  live = refl;
  held = refl;
  known = refl;
  in_use = refl;
  fresh = λ n later. refl;
}

-- The VLAN, which nobody holds, is in the way of nothing.
free_hosts_frees_example :
    (s' : Session Db) × (free_hosts test_env (first_vlan ∷ server ∷ server ∷ []) 50 in_booking
      ≡ (ok tt, s'))
    × (live_count 10 s'.db.allocations ≡ 0)
free_hosts_frees_example =
    free_hosts_frees test_env 50 10 (first_vlan ∷ server ∷ server ∷ []) in_booking in_booking-Inv
      (refl, tt) refl server-Ready

-- The host ends up with the aggregate of the bad hosts, whose id was drawn.
test_mark_not_working :
    (mark_not_working test_env [] (server ∷ server ∷ []) 50 in_booking).1.db.allocations
    ≡ record held { ended = some 1005 } ∷ granted 106 10 (some 102) 1007 for_maintenance ∷ []
unfolding mark_not_working insert_map insert_aggregate get_host deallocate_host deallocate_one find
    get_handle update_allocation allocate_specific_host allocate_one find_one_available
    find_specific_host handle_tracking allocation_is_allowed insert_allocation
test_mark_not_working = refl
