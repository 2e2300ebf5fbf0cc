-- ===== src/Allocation/Allocator/Rollback.antt =====
-- allocator.rs, `allocate_vlans_for`, in a run that fails at its second network.
use laas_reflab.Prelude.{
  ℕ, ◌≡◌, ap, subst, sym, ◌∙◌, arith, String, Option, none, some, List, [], ◌∷◌, put,
}
use laas_reflab.Dal.Transaction.{Res, ok, err, Session, and_then, caught, close, M, Ending}
use laas_reflab.Allocation.Db.{
  ResourceHandle, AllocationReason, for_booking, Network, NetworkAssignmentMap, Db, Env,
  get_network, get_map,
}
use laas_reflab.Allocation.Handle.{allocate_one, granted}
use laas_reflab.Allocation.Handle.Found.{Inv, live_count-append}
use laas_reflab.Allocation.Handle.Free.{live_count}
use laas_reflab.Allocation.Handle.Grants.{Granted, allocate_one_fails}
use laas_reflab.Allocation.Allocator.{
  keep_vlan, vlan_request, allocate_vlan_internal, assign_one, assign_vlans, allocate_vlans_for,
}
use laas_reflab.Allocation.Allocator.Vlans.{allocate_vlan_internal_grants}

Granted-live_count :
    (agg : Option ℕ) (reason : AllocationReason) (s : Session Db) (h : ResourceHandle)
    (s' : Session Db)
    → Granted agg reason s h s'
    → live_count h.id s'.db.allocations ≡ 1
Granted-live_count agg reason s h s' g =
    let row = granted g.row_id h.id agg g.row_started reason in
    let free = g.was_free in
    let rows = g.one_row in
    let split = live_count-append h.id s.db.allocations (row ∷ []) in ground arith

module _ (env : Env) (cooldown : List ℕ) (agg : ℕ) where
  abbrev pub vlan_for : Network → Session Db → Res (ℕ × ResourceHandle) × Session Db
  vlan_for net = allocate_vlan_internal env cooldown (some agg) net.public none for_booking

  -- Where no resource is held twice, an `allocate_vlans_for` that gets a VLAN for its first network and
  -- no handle for its second returns an error, and the first VLAN's handle has a live allocation afterwards.
  pub allocate_vlans_for_leaks :
      (n₁ n₂ : ℕ) (rest : List ℕ) (within : ℕ) (s : Session Db) (map : NetworkAssignmentMap)
      (net₁ net₂ : Network) (v : ℕ) (h : ResourceHandle) (s₁ s₂ : Session Db) (e : String)
      → Inv s.db
      → get_map within s ≡ (ok map, s)
      → get_network n₁ s ≡ (ok net₁, s)
      → vlan_for net₁ s ≡ (ok (v, h), s₁)
      → get_network n₂ s₁ ≡ (ok net₂, s₁)
      → allocate_one env (vlan_request none net₂.public) (some agg) for_booking cooldown s₁
        ≡ (err e, s₂)
      → (allocate_vlans_for env cooldown agg (n₁ ∷ n₂ ∷ rest) within s
          ≡ (err "Failed to allocate all vlans", s₂))
        × (live_count h.id s₂.db.allocations ≡ 1)
  unfolding allocate_vlans_for allocate_vlan_internal
  allocate_vlans_for_leaks n₁ n₂ rest within s map net₁ net₂ v h s₁ s₂ e i m g₁ a₁ g₂ a₂ =
      let map₁ : NetworkAssignmentMap = record map { networks = put n₁ v map.networks } in
      let next : List ℕ → NetworkAssignmentMap → M Db (Ending (Unit {0})) =
        assign_vlans env cooldown agg in
      let turn₁ : Res (ℕ × ResourceHandle) × Session Db → Res (Ending (Unit {0})) × Session Db =
        λ r. and_then (assign_one n₁ map (next (n₂ ∷ rest))) (caught r) in
      let turn₂ : Res (ℕ × ResourceHandle) × Session Db → Res (Ending (Unit {0})) × Session Db =
        λ r. and_then (assign_one n₂ map₁ (next rest)) (caught r) in
      let grant =
        (allocate_vlan_internal_grants env cooldown (some agg) net₁.public none for_booking s i
          a₁).0 in
      let same =
        allocate_one_fails env (vlan_request none net₂.public) (some agg) for_booking cooldown s₁ a₂
          (λ h. ground arith) in
      (
        ap (close s) (
            ap (and_then (next (n₁ ∷ n₂ ∷ rest))) m
            ∙ ap (and_then (λ net w. turn₁ (vlan_for net w))) g₁
            ∙ ap turn₁ a₁
            ∙ ap (and_then (λ net w. turn₂ (vlan_for net w))) g₂
            ∙ ap (λ r. turn₂ (and_then keep_vlan (caught r))) a₂),
        subst (λ d. live_count h.id d.allocations ≡ 1) (sym same)
            (Granted-live_count (some agg) for_booking s h s₁ grant),
      )
