-- ===== src/Allocation/Allocator.antt =====
-- src/workflows/src/resource_management/allocator.rs: the operations of `Allocator`, each
-- on the tables that it finds, as one thread runs it alone. The lock is left out: those that allocate
-- hold it until they return, which is before the caller's transaction ends, and those that release do
-- not take it. `cooldown` is the list of handles that `except_resources` gives.
pub mod Keeping
pub mod Given
pub mod Vlans
pub mod Rollback
mod Tests
use laas_reflab.Prelude.{ℕ, String, Bool, Option, none, some, List, [], ◌∷◌, put}
use laas_reflab.Dal.Transaction.{
  Res, ok, err, panicked, M, ◌>>=◌, ◌>>◌, pure, fail, panics, attempt, Ending, commits, rolls_back,
  drops, transaction,
}
use laas_reflab.Allocation.Db.{
  ResourceHandleInner, ResourceHandle, AllocationReason, for_booking, NetworkAssignmentMap, Network,
  Db, Env, get_network, get_map, update_map,
}
use laas_reflab.Allocation.Handle.{
  ResourceRequestInner, host_by_flavor, specific_host, specific_vlan, vlan_by_characteristics,
  vpn_access, allocate_one, deallocate_one, deallocate_all_for,
}

-- The `match` on the handle that the search gave: a host is kept, anything else is let go. The code
-- drops the future of `t.rollback()` here, and the transaction with it.
abbrev pub kept_host : ResourceHandle → ResourceHandleInner → Ending (ℕ × ResourceHandle)
kept_host handle (ResourceHandleInner.host h) = commits (ok (h, handle))
kept_host handle (ResourceHandleInner.private_vlan v) =
    drops (err "got wrong type of resource given back to us from allocator")
kept_host handle (ResourceHandleInner.public_vlan v) =
    drops (err "got wrong type of resource given back to us from allocator")
kept_host handle (ResourceHandleInner.vpn_access t) =
    drops (err "got wrong type of resource given back to us from allocator")

abbrev pub keep_host : Res ResourceHandle → M Db (Ending (ℕ × ResourceHandle))
keep_host (ok handle) = pure (kept_host handle handle.tracks)
keep_host (err e) = pure (drops (err e))
keep_host panicked = panics

abbrev pub vlan_of : ResourceHandle → ResourceHandleInner → M Db (ℕ × ResourceHandle)
vlan_of h (ResourceHandleInner.private_vlan v) = pure (v, h)
vlan_of h (ResourceHandleInner.public_vlan v) = pure (v, h)
vlan_of h (ResourceHandleInner.host x) = fail "we got back an incorrect type of resource"
vlan_of h (ResourceHandleInner.vpn_access x) = fail "we got back an incorrect type of resource"

abbrev pub keep_vlan : Res ResourceHandle → M Db (ℕ × ResourceHandle)
keep_vlan (ok h) = vlan_of h h.tracks
keep_vlan (err e) = fail "error allocating vlan"
keep_vlan panicked = panics

-- `t.commit().await?; res`, unless there was a panic.
abbrev pub commit_either : Res (ℕ × ResourceHandle) → M Db (Ending (ℕ × ResourceHandle))
commit_either (ok v) = pure (commits (ok v))
commit_either (err e) = pure (commits (err e))
commit_either panicked = panics

-- A turn of the loop of `allocate_vlans_for`: `next` is the rest of it. On an error it rolls back.
abbrev pub assign_one :
    ℕ
    → NetworkAssignmentMap
    → (NetworkAssignmentMap → M Db (Ending (Unit {0})))
    → Res (ℕ × ResourceHandle)
    → M Db (Ending (Unit {0}))
assign_one network map next (ok (v, h)) =
    next (record map { networks = put network v map.networks })
assign_one network map next (err e) = pure (rolls_back (err "Failed to allocate all vlans"))
assign_one network map next panicked = panics

abbrev pub vlan_request : Option ℕ → Bool → ResourceRequestInner
vlan_request (some id) public = specific_vlan id
vlan_request none public = vlan_by_characteristics public public

module _ (env : Env) (cooldown : List ℕ) where
  unfoldable pub allocate_host : ℕ → ℕ → AllocationReason → M Db (ℕ × ResourceHandle)
  allocate_host flavor for_aggregate reason = transaction (do
    res ← attempt (allocate_one env (host_by_flavor flavor) (some for_aggregate) reason cooldown)
    keep_host res)

  unfoldable pub allocate_specific_host : ℕ → ℕ → AllocationReason → M Db (ℕ × ResourceHandle)
  allocate_specific_host host for_aggregate reason = transaction (do
    res ← attempt (allocate_one env (specific_host host) (some for_aggregate) reason cooldown)
    keep_host res)

  unfoldable pub allocate_vlan_internal :
      Option ℕ → Bool → Option ℕ → AllocationReason → M Db (ℕ × ResourceHandle)
  allocate_vlan_internal agg_id public id reason = do
    resp ← attempt (allocate_one env (vlan_request id public) agg_id reason cooldown)
    keep_vlan resp

  -- The loop of `allocate_vlans_for`, with what follows it.
  abbrev pub assign_vlans : ℕ → List ℕ → NetworkAssignmentMap → M Db (Ending (Unit {0}))
  assign_vlans agg [] map = do update_map map; pure (commits (ok tt))
  assign_vlans agg (network ∷ rest) map = do
    net ← get_network network
    allocation_result ← attempt (allocate_vlan_internal (some agg) net.public none for_booking)
    assign_one network map (assign_vlans agg rest) allocation_result

  unfoldable pub allocate_vlans_for : ℕ → List ℕ → ℕ → M Db (Unit {0})
  allocate_vlans_for agg networks within =
      transaction (do map ← get_map within; assign_vlans agg networks map)

  unfoldable pub allocate_vlan :
      Option ℕ → Option ℕ → Bool → AllocationReason → M Db (ℕ × ResourceHandle)
  allocate_vlan for_agg id public reason =
      transaction
        (do res ← attempt (allocate_vlan_internal for_agg public id reason); commit_either res)

-- These two pass no cooldown on.
module _ (env : Env) where
  unfoldable pub allocate_vpn : ℕ → String → String → M Db (Unit {0})
  allocate_vpn for_aggregate for_user for_project = do
    vpn ← allocate_one env (vpn_access for_project for_user) (some for_aggregate) for_booking []
    pure tt

  unfoldable pub deallocate_host : ResourceHandle → ℕ → M Db (Unit {0})
  deallocate_host host agg = deallocate_one env (some agg) host.id

  unfoldable pub deallocate_aggregate : ℕ → M Db (Unit {0})
  deallocate_aggregate agg = deallocate_all_for env agg
