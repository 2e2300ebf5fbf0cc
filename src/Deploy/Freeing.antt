-- ===== src/Deploy/Freeing.antt =====
-- src/workflows/src/deploy_booking/mod.rs: `free_hosts` and `mark_not_working`, over the allocator. The logs
-- and the mail are left out; of the new aggregate there is the id, of its template nothing but the id drawn.
pub mod Ready
pub mod Frees
pub mod Moves
mod Tests
use laas_reflab.Prelude.{
  ℕ, ◌==◌, Bool, true, false, List, [], ◌∷◌, ◌++◌, if◌then◌else◌, any, contains, select, head?,
}
use laas_reflab.Dal.Transaction.{
  Res, ok, err, panicked, M, ◌>>=◌, ◌>>◌, pure, fail, panics, ok_or, expect, attempt, commits,
  transaction,
}
use laas_reflab.Allocation.Db.{
  ResourceHandle, ResourceHandleInner, Host, NetworkAssignmentMap, for_maintenance, Db, Env, new_id,
  tables, write,
}
use laas_reflab.Allocation.Allocator.{deallocate_host, allocate_specific_host}

-- The `match` on a result whose two arms only log: `next` is the rest of the loop.
abbrev pub whatever : {A : Type 0} → M Db (Unit {0}) → Res A → M Db (Unit {0})
whatever next (ok v) = next
whatever next (err e) = next
whatever next panicked = panics

-- `NewRow::insert` of a network assignment map with no networks, and of an aggregate.
unfoldable pub insert_map : ℕ → M Db ℕ
insert_map id = do
  db ← tables
  if any (λ m. m.id == id) db.network_assignments then fail "constraint violated" else (do
    write (record db {
      network_assignments = db.network_assignments ++ record { id = id; networks = [] } ∷ [];
    })
    pure id)

unfoldable pub insert_aggregate : ℕ → M Db ℕ
insert_aggregate id = do
  db ← tables
  if contains id db.aggregates
      then fail "constraint violated"
      else (do write (record db { aggregates = db.aggregates ++ id ∷ [] }); pure id)

-- `FKey::get` of a host.
unfoldable pub get_host : ℕ → M Db Host
get_host id = do db ← tables; ok_or "no such host" (head? (select (λ h. h.id == id) db.hosts))

module _ (env : Env) where
  abbrev pub free_each : ℕ → List ResourceHandle → M Db (Unit {0})
  free_each agg [] = pure tt
  free_each agg (handle ∷ rest) = do
    res ← attempt (deallocate_host env handle agg)
    whatever (free_each agg rest) res

  unfoldable pub free_hosts : List ResourceHandle → ℕ → M Db (Unit {0})
  free_hosts hosts agg = transaction (do free_each agg hosts; pure (commits (ok tt)))

  -- The aggregate that holds the bad hosts.
  abbrev pub bad_hosts : M Db ℕ
  bad_hosts = do
    agg ← new_id env
    map_id ← new_id env
    _ ← expect (insert_map map_id)
    template ← new_id env
    expect (insert_aggregate agg)

module _ (env : Env) (cooldown : List ℕ) where
  abbrev pub hold_host : ℕ → ResourceHandleInner → M Db (Unit {0}) → M Db (Unit {0})
  hold_host agg (ResourceHandleInner.host h) next = do
    _ ← expect (get_host h)
    res ← attempt (allocate_specific_host env cooldown h agg for_maintenance)
    whatever next res
  hold_host agg (ResourceHandleInner.private_vlan v) next = next
  hold_host agg (ResourceHandleInner.public_vlan v) next = next
  hold_host agg (ResourceHandleInner.vpn_access v) next = next

  -- The rest of a turn of the loop of `mark_not_working`.
  abbrev pub hold_freed : ℕ → ResourceHandle → M Db (Unit {0}) → Res (Unit {0}) → M Db (Unit {0})
  hold_freed agg handle next (ok v) = hold_host agg handle.tracks next
  hold_freed agg handle next (err e) = next
  hold_freed agg handle next panicked = panics

  abbrev pub move_each : ℕ → ℕ → List ResourceHandle → M Db (Unit {0})
  move_each original_agg agg [] = pure tt
  move_each original_agg agg (handle ∷ rest) = do
    res ← attempt (deallocate_host env handle original_agg)
    hold_freed agg handle (move_each original_agg agg rest) res

  unfoldable pub mark_not_working : List ResourceHandle → ℕ → M Db (Unit {0})
  mark_not_working [] original_agg = pure tt
  mark_not_working (handle ∷ rest) original_agg =
      transaction
        (do agg ← bad_hosts env; move_each original_agg agg (handle ∷ rest); pure (commits (ok tt)))
