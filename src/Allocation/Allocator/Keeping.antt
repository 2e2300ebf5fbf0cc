-- ===== src/Allocation/Allocator/Keeping.antt =====
-- allocator.rs: the invariant over calls of its operations, one after another.
use laas_reflab.Prelude.{ℕ, String, Bool, Option, none, some, List, [], ◌∷◌}
use laas_reflab.Dal.Transaction.{
  Res, ok, err, panicked, Session, M, Ending, commits, drops, rolls_back,
}
use laas_reflab.Dal.Transaction.Keeps.{
  Keeps, Keeps-bind, Keeps-pure, Keeps-fail, Keeps-panics, Keeps-ok_or, Keeps-attempt,
  Keeps-transaction,
}
use laas_reflab.Allocation.Db.{
  ResourceHandle, ResourceHandleInner, AllocationReason, for_booking, Db, Env, NetworkAssignmentMap,
  get_network, get_map, update_map,
}
use laas_reflab.Allocation.Handle.{ResourceRequestInner, host_by_flavor, vpn_access, allocate_one}
use laas_reflab.Allocation.Handle.Found.{Inv}
use laas_reflab.Allocation.Handle.Grants.{allocate_one-Inv}
use laas_reflab.Allocation.Handle.ReleaseAll.{deallocate_one-Keeps, deallocate_all_for-Keeps}
use laas_reflab.Allocation.Allocator.{
  kept_host, keep_host, vlan_of, keep_vlan, vlan_request, allocate_host, allocate_specific_host,
  allocate_vlan_internal, assign_one, assign_vlans, allocate_vlans_for, commit_either,
  allocate_vlan, allocate_vpn, deallocate_host, deallocate_aggregate,
}

keep_host-Keeps : (r : Res ResourceHandle) → Keeps Inv (keep_host r)
keep_host-Keeps (ok h) = Keeps-pure Inv (kept_host h h.tracks)
keep_host-Keeps (err e) = Keeps-pure Inv (drops (err e))
keep_host-Keeps panicked = Keeps-panics Inv

keep_vlan-Keeps : (r : Res ResourceHandle) → Keeps Inv (keep_vlan r)
keep_vlan-Keeps (ok h) = go h.tracks
  where
    go : (t : ResourceHandleInner) → Keeps Inv (vlan_of h t)
    go (ResourceHandleInner.private_vlan v) = Keeps-pure Inv (v, h)
    go (ResourceHandleInner.public_vlan v) = Keeps-pure Inv (v, h)
    go (ResourceHandleInner.host x) = Keeps-fail Inv "we got back an incorrect type of resource"
    go (ResourceHandleInner.vpn_access x) =
        Keeps-fail Inv "we got back an incorrect type of resource"
keep_vlan-Keeps (err e) = Keeps-fail Inv "error allocating vlan"
keep_vlan-Keeps panicked = Keeps-panics Inv

commit_either-Keeps : (r : Res (ℕ × ResourceHandle)) → Keeps Inv (commit_either r)
commit_either-Keeps (ok v) = Keeps-pure Inv (commits (ok v))
commit_either-Keeps (err e) = Keeps-pure Inv (commits (err e))
commit_either-Keeps panicked = Keeps-panics Inv

assign_one-Keeps :
    (network : ℕ) (map : NetworkAssignmentMap)
    {next : NetworkAssignmentMap → M Db (Ending (Unit {0}))}
    → ((m : NetworkAssignmentMap) → Keeps Inv (next m))
    → (r : Res (ℕ × ResourceHandle)) → Keeps Inv (assign_one network map next r)
assign_one-Keeps network map k (ok (v, h)) = k (record map { networks = _ })
assign_one-Keeps network map k (err e) =
    Keeps-pure Inv (rolls_back (err "Failed to allocate all vlans"))
assign_one-Keeps network map k panicked = Keeps-panics Inv

get_network-Keeps : (id : ℕ) → Keeps Inv (get_network id)
unfolding get_network
get_network-Keeps id = record { apply = λ s v. (Keeps-ok_or Inv "no such network" _).apply s v }

get_map-Keeps : (id : ℕ) → Keeps Inv (get_map id)
unfolding get_map
get_map-Keeps id = record { apply = λ s v. (Keeps-ok_or Inv "no such assignment map" _).apply s v }

update_map-Keeps : (m : NetworkAssignmentMap) → Keeps Inv (update_map m)
unfolding update_map
update_map-Keeps m = record { apply = λ s v. record { one_holder = v.one_holder; known = v.known } }

module _ (env : Env) where
  allocate_one-Keeps :
      (filter : ResourceRequestInner) (agg : Option ℕ) (reason : AllocationReason)
      (except_for : List ℕ)
      → Keeps Inv (allocate_one env filter agg reason except_for)
  allocate_one-Keeps filter agg reason except_for = record {
    apply = λ s v. allocate_one-Inv env filter agg reason except_for s v;
  }

module _ (env : Env) (cooldown : List ℕ) where
  allocate_vlan_internal-Keeps :
      (agg : Option ℕ) (public : Bool) (id : Option ℕ) (reason : AllocationReason)
      → Keeps Inv (allocate_vlan_internal env cooldown agg public id reason)
  unfolding allocate_vlan_internal
  allocate_vlan_internal-Keeps agg public id reason =
      Keeps-bind Inv
        (Keeps-attempt Inv (allocate_one-Keeps env (vlan_request id public) agg reason cooldown))
        keep_vlan-Keeps

  assign_vlans-Keeps :
      (agg : ℕ) (networks : List ℕ) (map : NetworkAssignmentMap)
      → Keeps Inv (assign_vlans env cooldown agg networks map)
  assign_vlans-Keeps agg [] map =
      Keeps-bind Inv (update_map-Keeps map) (λ _. Keeps-pure Inv (commits (ok tt)))
  assign_vlans-Keeps agg (n ∷ rest) map = Keeps-bind Inv (get_network-Keeps n) (λ net.
      Keeps-bind Inv
        (Keeps-attempt Inv (allocate_vlan_internal-Keeps (some agg) net.public none for_booking))
        (assign_one-Keeps n map (assign_vlans-Keeps agg rest)))

-- A call of the allocator, whoever makes it.
pub data Call : Type 0 where
  host specific_host : ℕ → ℕ → AllocationReason → Call
  vlan : Option ℕ → Option ℕ → Bool → AllocationReason → Call
  vlans_for : ℕ → List ℕ → ℕ → Call
  vpn : ℕ → String → String → Call
  release_host : ResourceHandle → ℕ → Call
  release_all : ℕ → Call

module _ (env : Env) (cooldown : List ℕ) where
  -- The tables after a call, whatever it returned.
  abbrev pub call : Call → Session Db → Session Db
  call (Call.host flavor agg reason) s = (allocate_host env cooldown flavor agg reason s).1
  call (Call.specific_host h agg reason) s = (allocate_specific_host env cooldown h agg reason s).1
  call (Call.vlan agg id public reason) s = (allocate_vlan env cooldown agg id public reason s).1
  call (Call.vlans_for agg networks within) s =
      (allocate_vlans_for env cooldown agg networks within s).1
  call (Call.vpn agg user project) s = (allocate_vpn env agg user project s).1
  call (Call.release_host handle agg) s = (deallocate_host env handle agg s).1
  call (Call.release_all agg) s = (deallocate_aggregate env agg s).1

  abbrev pub calls : List Call → Session Db → Session Db
  calls [] s = s
  calls (c ∷ cs) s = calls cs (call c s)

  pub call-Inv : (c : Call) (s : Session Db) → Inv s.db → Inv (call c s).db
  unfolding allocate_host allocate_specific_host allocate_vlan allocate_vlans_for allocate_vpn
      deallocate_host deallocate_aggregate
  call-Inv (Call.host flavor agg reason) s v =
      (Keeps-transaction Inv (
          Keeps-bind Inv
            (Keeps-attempt Inv
              (allocate_one-Keeps env (host_by_flavor flavor) (some agg) reason cooldown))
            keep_host-Keeps)).apply
        s v
  call-Inv (Call.specific_host h agg reason) s v =
      (Keeps-transaction Inv (
          Keeps-bind Inv
            (Keeps-attempt Inv (
              allocate_one-Keeps env (ResourceRequestInner.specific_host h) (some agg) reason
                cooldown))
            keep_host-Keeps)).apply
        s v
  call-Inv (Call.vlan agg id public reason) s v =
      (Keeps-transaction Inv (
          Keeps-bind Inv
            (Keeps-attempt Inv (allocate_vlan_internal-Keeps env cooldown agg public id reason))
            commit_either-Keeps)).apply
        s v
  call-Inv (Call.vlans_for agg networks within) s v =
      (Keeps-transaction Inv (
          Keeps-bind Inv (get_map-Keeps within)
            (assign_vlans-Keeps env cooldown agg networks))).apply
        s v
  call-Inv (Call.vpn agg user project) s v =
      (Keeps-bind Inv (allocate_one-Keeps env (vpn_access project user) (some agg) for_booking [])
          (λ _. Keeps-pure Inv tt)).apply
        s v
  call-Inv (Call.release_host handle agg) s v =
      (deallocate_one-Keeps env (some agg) handle.id).apply s v
  call-Inv (Call.release_all agg) s v = (deallocate_all_for-Keeps env agg).apply s v

  -- Calls of the allocator that run one after another, each on the tables that the one before it left,
  -- whatever they are and end in, lead from tables in which no resource is held twice and none without a
  -- handle is held to such tables. Nothing is said of calls at the same time, in transactions that are
  -- still open.
  pub calls-Inv : (cs : List Call) (s : Session Db) → Inv s.db → Inv (calls cs s).db
  calls-Inv [] s v = v
  calls-Inv (c ∷ cs) s v = calls-Inv cs (call c s) (call-Inv c s v)
