-- ===== src/Allocation/Handle/Found.antt =====
-- allocation.rs, `find_one_available`: the invariant of the tables, and what each search leaves of it.
use laas_reflab.Prelude.{
  ℕ, ◌+◌, ◌≤◌, ◌≡◌, refl, ◌∙◌, sym, ap, subst, arith, Bool, true, false, String, List, [], ◌∷◌,
  ◌++◌, ◌==◌, any,
}
use laas_reflab.Dal.Transaction.{ok, Session, ◌>>=◌, >>=-eq-ok}
use laas_reflab.Allocation.Db.{
  ResourceHandle, ResourceHandleInner, Allocation, VpnToken, Db, Env, get_handle, insert_allocation,
  insert_handle, insert_token,
}
use laas_reflab.Allocation.Handle.{
  ResourceRequestInner, vpn_access, make_vpn_access, add_resource, find_one_available,
  host_by_characteristics, host_by_flavor, vlan_by_characteristics, specific_vlan, specific_host,
  deallocate_host, deallocate_all,
}
use laas_reflab.Allocation.Handle.Free.{
  live_count, get_handle_lem, IsFree, find_vlan-IsFree, find_host_by_flavor-IsFree,
  find_specific_vlan-IsFree, find_specific_host-IsFree,
}

abbrev pub handle_known : ℕ → Db → Bool
handle_known r db = any (λ h. h.id == r) db.resource_handles

-- No resource has two live allocations, and a resource with no handle has none.
pub record Inv (db : Db) : Type 0 where
  pub one_holder : (r : ℕ) → live_count r db.allocations ≤ 1
  pub known : (r : ℕ) → handle_known r db ≡ false → live_count r db.allocations ≡ 0

pub live_count-append :
    (r : ℕ) (xs ys : List Allocation) → live_count r (xs ++ ys) ≡ live_count r xs + live_count r ys
live_count-append r [] ys = omega arith
live_count-append r (x ∷ xs) ys = ground (arith, live_count-append r xs ys)

any-append :
    (r : ℕ) (hs : List ResourceHandle) (h : ResourceHandle)
    → any (λ g. g.id == r) (hs ++ h ∷ []) ≡ false
    → any (λ g. g.id == r) hs ≡ false
any-append r [] h e = refl
any-append r (g ∷ hs) h e = ground (arith, any-append r hs h)

-- A grant that the database takes adds one row, for a resource that has a handle.
pub insert_allocation_lem :
    (a : Allocation) (s : Session Db) {s' : Session Db}
    → insert_allocation a s ≡ (ok tt, s')
    → (s' ≡ record s { db = record (s.db) { allocations = s.db.allocations ++ a ∷ [] } })
      × (handle_known a.for_resource s.db ≡ true)
unfolding insert_allocation
insert_allocation_lem a s e = ground arith

insert_handle_lem :
    (h : ResourceHandle) (s : Session Db) {id : ℕ} {s' : Session Db}
    → insert_handle h s ≡ (ok id, s')
    → (id ≡ h.id)
      × (handle_known h.id s.db ≡ false)
      × (s'
          ≡ record s { db = record (s.db) { resource_handles = s.db.resource_handles ++ h ∷ [] } })
unfolding insert_handle
insert_handle_lem h s e = ground arith

insert_token_lem :
    (t : VpnToken) (s : Session Db) {id : ℕ} {s' : Session Db}
    → insert_token t s ≡ (ok id, s')
    → (s'.db.allocations ≡ s.db.allocations)
      × (s'.db.resource_handles ≡ s.db.resource_handles)
      × (s'.db.network_assignments ≡ s.db.network_assignments)
unfolding insert_token
insert_token_lem t s e = ground arith

-- What a search does to the tables that the invariant reads.
pub record Found (s : Session Db) (h : ResourceHandle) (s' : Session Db) : Type 0 where
  pub free : live_count h.id s.db.allocations ≡ 0
  pub allocations : s'.db.allocations ≡ s.db.allocations
  pub maps : s'.db.network_assignments ≡ s.db.network_assignments
  pub handles : (r : ℕ) → handle_known r s'.db ≡ false → handle_known r s.db ≡ false

-- A handle that is new to the tables is free.
added-Found :
    (n : ResourceHandle) (s s₂ s₃ s' : Session Db) (h : ResourceHandle)
    → Inv s.db
    → s₂.db.allocations ≡ s.db.allocations
    → s₂.db.resource_handles ≡ s.db.resource_handles
    → handle_known n.id s₂.db ≡ false
    → s₃.db.allocations ≡ s₂.db.allocations
    → s₃.db.resource_handles ≡ s₂.db.resource_handles ++ n ∷ []
    → s₂.db.network_assignments ≡ s.db.network_assignments
    → s₃.db.network_assignments ≡ s₂.db.network_assignments
    → h.id ≡ n.id
    → s' ≡ s₃
    → Found s h s'
added-Found n s s₂ s₃ s' h v a₂ h₂ unknown a₃ h₃ m₂ m₃ id last = record {
  free = v.known h.id (
      subst (λ r. handle_known r s.db ≡ false) (sym id)
        (subst (λ hs. any (λ g. g.id == n.id) hs ≡ false) h₂ unknown));
  allocations = ap (λ u. u.db.allocations) last ∙ a₃ ∙ a₂;
  maps = ap (λ u. u.db.network_assignments) last ∙ m₃ ∙ m₂;
  handles = λ r q. any-append r s.db.resource_handles n (ground arith);
}

module _ (env : Env) where
  Found-IsFree :
      (s : Session Db) (h : ResourceHandle) (s' : Session Db) → IsFree env s h s' → Found s h s'
  Found-IsFree s h s' (same, free) = record {
    free = free;
    allocations = ap (λ v. v.db.allocations) same;
    maps = ap (λ v. v.db.network_assignments) same;
    handles = λ r e. subst (λ v. handle_known r v.db ≡ false) same e;
  }

  make_vpn_access-Found :
      (project user : String) (s : Session Db) {h : ResourceHandle} {s' : Session Db}
      → make_vpn_access env project user s ≡ (ok h, s')
      → Inv s.db
      → Found s h s'
  unfolding make_vpn_access add_resource
  make_vpn_access-Found project user s {h} {s'} e v =
      let t : VpnToken = record { id = env.uuid s.draws; username = user; project = project } in
      let s₁ : Session Db = record s { draws = s.draws + 1 } in
      let (vti, s₂, i, e₂) =
        >>=-eq-ok (insert_token t)
          (λ vti. add_resource env (ResourceHandleInner.vpn_access vti) >>= get_handle) s₁ e in
      let (ri, s₃, a, g) =
        >>=-eq-ok (add_resource env (ResourceHandleInner.vpn_access vti)) get_handle s₂ e₂ in
      let n : ResourceHandle = record {
        id = env.uuid s₂.draws;
        tracks = ResourceHandleInner.vpn_access vti;
      } in
      let (idq, unknown, w) = insert_handle_lem n (record s₂ { draws = s₂.draws + 1 }) a in
      let (allocs, handles, maps) = insert_token_lem t s₁ i in
      let (same_id, last) = get_handle_lem ri s₃ g in
      added-Found n s s₂ s₃ s' h v allocs handles unknown (ap (λ u. u.db.allocations) w)
        (ap (λ u. u.db.resource_handles) w) maps (ap (λ u. u.db.network_assignments) w)
        (same_id ∙ idq) last

  pub find_one_available-Found :
      (filter : ResourceRequestInner) (except_for : List ℕ) (s : Session Db) {h : ResourceHandle}
      {s' : Session Db}
      → find_one_available env filter except_for s ≡ (ok h, s')
      → Inv s.db
      → Found s h s'
  unfolding find_one_available
  find_one_available-Found host_by_characteristics except_for s e v = absurd (ground arith)
  find_one_available-Found (host_by_flavor flavor) except_for s {h} {s'} e v =
      Found-IsFree s h s' (find_host_by_flavor-IsFree env flavor except_for s e)
  find_one_available-Found (vlan_by_characteristics public dhcp) except_for s {h} {s'} e v =
      Found-IsFree s h s' (find_vlan-IsFree env public except_for s e)
  find_one_available-Found (specific_vlan vlan) except_for s {h} {s'} e v =
      Found-IsFree s h s' (find_specific_vlan-IsFree env vlan except_for s e)
  find_one_available-Found (specific_host host) except_for s {h} {s'} e v =
      Found-IsFree s h s' (find_specific_host-IsFree env host s e)
  find_one_available-Found (vpn_access project user) except_for s e v =
      make_vpn_access-Found project user s e v
  find_one_available-Found (deallocate_host resource) except_for s e v = absurd (ground arith)
  find_one_available-Found deallocate_all except_for s e v = absurd (ground arith)
