-- ===== src/Allocation/Allocator/Given.antt =====
-- allocator.rs, `allocate_vlan_internal` of any VLAN of a kind: the handle whose VLAN it gives back.
use laas_reflab.Prelude.{
  ℕ, ◌+◌, true, ◌≡◌, refl, sym, ap, subst, ◌∙◌, arith, Bool, Option, none, some, List, [], ◌∷◌,
  ◌==◌, select, head?, put,
}
use laas_reflab.Dal.Transaction.{
  Res, ok, err, panicked, Session, >>=-eq-ok, ok_or, expect, ok_or-eq-ok, pure, and_then, caught,
  commits, transaction-eq-ok, close,
}
use laas_reflab.Allocation.Db.{
  ResourceHandle, ResourceHandleInner, AllocationReason, for_booking, Allocation, Db, Env,
  get_handle, insert_allocation,
}
use laas_reflab.Allocation.Handle.{
  find_vlan, query_free, allocation_is_allowed, find_one_available, granted, grant, find_and_grant,
  allocate_one, vlan_by_characteristics,
}
use laas_reflab.Allocation.Handle.Free.{get_handle_lem, query_lem, find_vlan-IsFree}
use laas_reflab.Allocation.Handle.Found.{insert_allocation_lem}
use laas_reflab.Allocation.Allocator.{keep_vlan, vlan_of, allocate_vlan_internal}

abbrev pub TracksVlan : ResourceHandleInner → ℕ → Type 0
TracksVlan (ResourceHandleInner.private_vlan v) w = v ≡ w
TracksVlan (ResourceHandleInner.public_vlan v) w = v ≡ w
TracksVlan (ResourceHandleInner.host x) w = ⊥
TracksVlan (ResourceHandleInner.vpn_access x) w = ⊥

pub vlan_of_lem :
    (g : ResourceHandle) (t : ResourceHandleInner) (s : Session Db) {v : ℕ} {h : ResourceHandle}
    {s' : Session Db}
    → vlan_of g t s ≡ (ok (v, h), s')
    → (g ≡ h) × (s' ≡ s) × TracksVlan t v
vlan_of_lem g (ResourceHandleInner.private_vlan v) s e = (ground arith, ground arith, ground arith)
vlan_of_lem g (ResourceHandleInner.public_vlan v) s e = (ground arith, ground arith, ground arith)
vlan_of_lem g (ResourceHandleInner.host x) s e = absurd (ground arith)
vlan_of_lem g (ResourceHandleInner.vpn_access x) s e = absurd (ground arith)

-- The row of `resource_handles` with the id.
abbrev pub handle_of : ℕ → List ResourceHandle → Option ResourceHandle
handle_of id handles = head? (select (λ h. h.id == id) handles)

-- One turn of the loop of `allocate_vlans_for`: the network, the VLAN that the map gets for it, and the
-- new allocation.
pub record Assignment : Type 0 where
  pub network : ℕ
  pub vlan : ℕ
  pub row : Allocation

abbrev pub networks_of : List Assignment → List ℕ
networks_of [] = []
networks_of (a ∷ rest) = a.network ∷ networks_of rest

abbrev pub rows_of : List Assignment → List Allocation
rows_of [] = []
rows_of (a ∷ rest) = a.row ∷ rows_of rest

abbrev pub put_all : List Assignment → List (ℕ × ℕ) → List (ℕ × ℕ)
put_all [] networks = networks
put_all (a ∷ rest) networks = put_all rest (put a.network a.vlan networks)

-- The row is a live allocation of the aggregate for a booking, and its resource tracks the VLAN.
abbrev pub Backed : ℕ → List ResourceHandle → Assignment → Type 0
Backed agg handles a =
    (a.row.for_aggregate ≡ some agg)
    × (a.row.ended ≡ none)
    × (a.row.reason_started ≡ for_booking)
    × ((h : ResourceHandle) × (handle_of a.row.for_resource handles ≡ some h)
        × TracksVlan h.tracks a.vlan)

-- The handle is in the table, which is not changed.
abbrev pub Handed : Session Db → ResourceHandle → Session Db → Type 0
Handed s h s' =
    (handle_of h.id s.db.resource_handles ≡ some h)
    × (s'.db.resource_handles ≡ s.db.resource_handles)

get_handle-handle_of :
    (id : ℕ) (s : Session Db) {h : ResourceHandle} {s' : Session Db}
    → get_handle id s ≡ (ok h, s')
    → handle_of h.id s.db.resource_handles ≡ some h
unfolding get_handle
get_handle-handle_of id s {h} e =
    let (same_id, same) = get_handle_lem id s e in
    subst (λ i. handle_of i s.db.resource_handles ≡ some h) (sym same_id)
      (ok_or-eq-ok "no such handle" (handle_of id s.db.resource_handles) s e).0

module _ (env : Env) where
  find_vlan-handle_of :
      (public : Bool) (except_for : List ℕ) (s : Session Db) {h : ResourceHandle} {s' : Session Db}
      → find_vlan env public except_for s ≡ (ok h, s')
      → handle_of h.id s.db.resource_handles ≡ some h
  unfolding find_vlan query_free
  find_vlan-handle_of public except_for s {h} e =
      let (set, s₁, q, e₁) = >>=-eq-ok (query_free env _ none except_for) _ s e in
      let (v, s₂, o, e₂) = >>=-eq-ok (ok_or _ (head? set)) _ s₁ e₁ in
      let (rh, s₃, g, e₃) = >>=-eq-ok (get_handle v.1) _ s₂ e₂ in
      let (u, s₄, a, e₄) = >>=-eq-ok (expect (allocation_is_allowed env rh.id)) _ s₃ e₃ in
      let same₁ = query_lem env true _ none except_for s q in
      let (some_v, same₂) = ok_or-eq-ok _ (head? set) s₁ o in
      let same_h : rh ≡ h = ground arith in
      let here = get_handle-handle_of v.1 s₂ g in
      subst (λ x. handle_of x.id s.db.resource_handles ≡ some x) same_h
        (subst (λ w. handle_of rh.id w.db.resource_handles ≡ some rh) (same₂ ∙ same₁) here)

  allocate_one-Handed :
      (public dhcp : Bool) (agg : Option ℕ) (reason : AllocationReason) (except_for : List ℕ)
      (s : Session Db) {h : ResourceHandle} {s' : Session Db}
      → allocate_one env (vlan_by_characteristics public dhcp) agg reason except_for s ≡ (ok h, s')
      → Handed s h s'
  unfolding allocate_one find_one_available
  allocate_one-Handed public dhcp agg reason except_for s {h} {s'} e =
      let filter = vlan_by_characteristics public dhcp in
      let (how, u, b, c) =
        transaction-eq-ok (find_and_grant env filter agg reason except_for) s e in
      let (r, s₁, f, e₁) =
        >>=-eq-ok (find_one_available env filter except_for) (grant env agg reason) s b in
      let (same, free) = find_vlan-IsFree env public except_for s f in
      let here = find_vlan-handle_of public except_for s f in
      let row = granted (env.uuid s₁.draws) r.id agg (env.clock (s₁.draws + 1)) reason in
      let s₂ : Session Db = record s₁ { draws = s₁.draws + 1 + 1 } in
      let (done, s₃, i, e₂) =
        >>=-eq-ok (insert_allocation row) (λ _. pure (commits (ok r))) s₂ e₁ in
      let (added, has) = insert_allocation_lem row s₂ i in
      let same_how : how ≡ commits (ok r) = ground arith in
      let same_u : u ≡ s₃ = ground arith in
      let c' : close s (ok (commits (ok r)), s₃) ≡ (ok h, s') = cc in
      let same_h : r ≡ h = ground arith in
      let last : s' ≡ s₃ = ground arith in
      (
        subst (λ x. handle_of x.id s.db.resource_handles ≡ some x) same_h here,
        ap (λ w. w.db.resource_handles) last
            ∙ ap (λ w. w.db.resource_handles) added
            ∙ ap (λ w. w.db.resource_handles) same,
      )

  -- The handle of the VLAN that is given back is one of the table, which is not changed.
  pub allocate_vlan_internal-Handed :
      (cooldown : List ℕ) (agg : Option ℕ) (public : Bool) (reason : AllocationReason)
      (s : Session Db) {v : ℕ} {h : ResourceHandle} {s' : Session Db}
      → allocate_vlan_internal env cooldown agg public none reason s ≡ (ok (v, h), s')
      → Handed s h s'
  unfolding allocate_vlan_internal
  allocate_vlan_internal-Handed cooldown agg public reason s {v} {h} {s'} e =
      go (allocate_one env (vlan_by_characteristics public public) agg reason cooldown s) refl e
    where
      go :
          (b : Res ResourceHandle × Session Db)
          → allocate_one env (vlan_by_characteristics public public) agg reason cooldown s ≡ b
          → and_then keep_vlan (caught b) ≡ (ok (v, h), s')
          → Handed s h s'
      go (ok g, u) q k =
          let (same_h, same_s, tracks) = vlan_of_lem g g.tracks u k in
          let handed = allocate_one-Handed public public agg reason cooldown s q in
          subst (λ x. Handed s x s') same_h (subst (Handed s g) (sym same_s) handed)
      go (err x, u) q k = absurd (ground arith)
      go (panicked, u) q k = absurd (ground arith)
