-- ===== src/Allocation/Handle/Free.antt =====
-- allocation.rs: what a search that succeeds has found.
use laas_reflab.Prelude.{
  ℕ, suc, ◌≡◌, refl, subst, arith, Bool, true, false, ◌&&◌, Option, none, some, List, [], ◌∷◌, ◌==◌,
  if◌then◌else◌, select, head?, is_some,
}
use laas_reflab.Dal.Transaction.{
  Res, ok, err, panicked, Session, >>=-eq-ok, ok_or, expect, ok_or-eq-ok, expect-eq-ok, attempt,
  attempt-eq-ok,
}
use laas_reflab.Allocation.Db.{
  ResourceHandle, Allocation, Db, Env, vlans_by_id, is_live, is_null, find, get_handle,
}
use laas_reflab.Allocation.Handle.{
  allowed, query_opt, or_unavailable, not_in, query, query_free, allocation_is_allowed,
  find_host_by_flavor, find_vlan, find_specific_vlan, find_specific_host, handle_tracking,
}

-- How many allocations of the resource have not ended.
abbrev pub live_count : ℕ → List Allocation → ℕ
live_count r [] = 0
live_count r (a ∷ rest) = let more = live_count r rest in if is_live r a then suc more else more

found_none :
    (r : ℕ) (allocs : List Allocation)
    → select
        (λ a. (a.for_resource == r) && (if false then is_some a.ended else is_null a.ended))
        allocs
      ≡ []
    → live_count r allocs ≡ 0
found_none r [] e = refl
found_none r (a ∷ rest) e = ground (arith, found_none r rest)

pub get_handle_lem :
    (id : ℕ) (s : Session Db) {h : ResourceHandle} {s' : Session Db}
    → get_handle id s ≡ (ok h, s')
    → (h.id ≡ id) × (s' ≡ s)
unfolding get_handle
get_handle_lem id s {h} e =
    let (found, same) =
      ok_or-eq-ok "no such handle" (head? (select (λ h. h.id == id) s.db.resource_handles)) s e in
    (go s.db.resource_handles found, same)
  where
    go : (hs : List ResourceHandle) → head? (select (λ g. g.id == id) hs) ≡ some h → h.id ≡ id
    go [] q = absurd (cc)
    go (g ∷ hs) q = ground (arith, go hs)

module _ (env : Env) where
  allowed_nil :
      (l : List Allocation) (s : Session Db) {s' : Session Db}
      → allowed env l s ≡ (ok tt, s')
      → (s' ≡ s) × (l ≡ [])
  allowed_nil [] s e = (ground arith, refl)
  allowed_nil (a ∷ []) s e = absurd (ground arith)
  allowed_nil (a ∷ b ∷ rest) s e = absurd (ground arith)

  allowed_lem :
      (r : ℕ) (s : Session Db) {s' : Session Db}
      → allocation_is_allowed env r s ≡ (ok tt, s')
      → (s' ≡ s) × (live_count r s.db.allocations ≡ 0)
  unfolding allocation_is_allowed find
  allowed_lem r s e =
      let (same, nil) = allowed_nil _ s e in (same, found_none r s.db.allocations nil)

  -- A search that succeeds changes nothing, and what it found has no live allocation.
  abbrev pub IsFree : Session Db → ResourceHandle → Session Db → Type 0
  IsFree s h s' = (s' ≡ s) × (live_count h.id s.db.allocations ≡ 0)

  pub query_lem :
      (free : Bool) (resources : Db → List ℕ) (limit : Option ℕ) (except_for : List ℕ)
      (s : Session Db) {l : List (ℕ × ℕ)} {s' : Session Db}
      → query env free resources limit except_for s ≡ (ok l, s')
      → s' ≡ s
  unfolding query
  query_lem free resources limit except_for s e = ground arith

  pub find_vlan-IsFree :
      (public : Bool) (except_for : List ℕ) (s : Session Db) {h : ResourceHandle} {s' : Session Db}
      → find_vlan env public except_for s ≡ (ok h, s')
      → IsFree s h s'
  unfolding find_vlan query_free
  find_vlan-IsFree public except_for s e =
      let (set, s₁, q, e₁) = >>=-eq-ok (query_free env _ none except_for) _ s e in
      let (v, s₂, o, e₂) = >>=-eq-ok (ok_or _ (head? set)) _ s₁ e₁ in
      let (rh, s₃, g, e₃) = >>=-eq-ok (get_handle v.1) _ s₂ e₂ in
      let (u, s₄, a, e₄) = >>=-eq-ok (expect (allocation_is_allowed env rh.id)) _ s₃ e₃ in
      let same₁ = query_lem true _ none except_for s q in
      let (some_v, same₂) = ok_or-eq-ok _ (head? set) s₁ o in
      let (id, same₃) = get_handle_lem v.1 s₂ g in
      let (same₄, free) =
        allowed_lem rh.id s₃ (expect-eq-ok (allocation_is_allowed env rh.id) s₃ a) in
      ground arith

  pub find_host_by_flavor-IsFree :
      (flavor : ℕ) (except_for : List ℕ) (s : Session Db) {h : ResourceHandle} {s' : Session Db}
      → find_host_by_flavor env flavor except_for s ≡ (ok h, s')
      → IsFree s h s'
  unfolding find_host_by_flavor query_free
  find_host_by_flavor-IsFree flavor except_for s e =
      let (hosts, s₁, q, e₁) = >>=-eq-ok (query_free env _ none except_for) _ s e in
      let ids = env.shuffle (select (not_in except_for) hosts) in
      let (v, s₂, o, e₂) = >>=-eq-ok (ok_or _ (head? ids)) _ s₁ e₁ in
      let (rh, s₃, g, e₃) = >>=-eq-ok (get_handle v.1) _ s₂ e₂ in
      let (u, s₄, a, e₄) = >>=-eq-ok (expect (allocation_is_allowed env rh.id)) _ s₃ e₃ in
      let same₁ = query_lem true _ none except_for s q in
      let (some_v, same₂) = ok_or-eq-ok _ (head? ids) s₁ o in
      let (id, same₃) = get_handle_lem v.1 s₂ g in
      let (same₄, free) =
        allowed_lem rh.id s₃ (expect-eq-ok (allocation_is_allowed env rh.id) s₃ a) in
      ground arith

  pub find_specific_vlan-IsFree :
      (vlan : ℕ) (except_for : List ℕ) (s : Session Db) {h : ResourceHandle} {s' : Session Db}
      → find_specific_vlan env vlan except_for s ≡ (ok h, s')
      → IsFree s h s'
  unfolding find_specific_vlan query_free
  find_specific_vlan-IsFree vlan except_for s e =
      let (row, s₀, r, e₀) = >>=-eq-ok (ok_or _ (head? (vlans_by_id vlan s.db))) _ s e in
      let (set, s₁, q, e₁) = >>=-eq-ok (query_free env _ none except_for) _ s₀ e₀ in
      let (v, s₂, o, e₂) = >>=-eq-ok (ok_or _ (head? set)) _ s₁ e₁ in
      let (u, s₃, a, e₃) = >>=-eq-ok (expect (allocation_is_allowed env v.1)) _ s₂ e₂ in
      let (some_row, same₀) = ok_or-eq-ok _ (head? (vlans_by_id vlan s.db)) s r in
      let same₁ = query_lem true _ none except_for s₀ q in
      let (some_v, same₂) = ok_or-eq-ok _ (head? set) s₁ o in
      let (same₃, free) = allowed_lem v.1 s₂ (expect-eq-ok (allocation_is_allowed env v.1) s₂ a) in
      let (id, same₄) = get_handle_lem v.1 s₃ e₃ in ground arith

  query_opt_lem :
      (l : List ResourceHandle) (s : Session Db) {o : Option ResourceHandle} {s' : Session Db}
      → query_opt env l s ≡ (ok o, s')
      → s' ≡ s
  query_opt_lem [] s e = ground arith
  query_opt_lem (h ∷ []) s e = ground arith
  query_opt_lem (h ∷ g ∷ rest) s e = absurd (ground arith)

  or_unavailable_lem :
      (rh : ResourceHandle) (answer : Res (Unit {0})) (s : Session Db) {h : ResourceHandle}
      {s' : Session Db}
      → or_unavailable env rh answer s ≡ (ok h, s')
      → (answer ≡ ok tt) × (rh ≡ h) × (s' ≡ s)
  or_unavailable_lem rh (ok u) s e = (refl, ground arith, ground arith)
  or_unavailable_lem rh (err x) s e = absurd (ground arith)
  or_unavailable_lem rh panicked s e = absurd (ground arith)

  pub find_specific_host-IsFree :
      (host : ℕ) (s : Session Db) {h : ResourceHandle} {s' : Session Db}
      → find_specific_host env host s ≡ (ok h, s')
      → IsFree s h s'
  unfolding find_specific_host handle_tracking
  find_specific_host-IsFree host s e =
      let hosts = head? (select (λ h. h.id == host) s.db.hosts) in
      let (row, s₀, r, e₀) = >>=-eq-ok (ok_or _ hosts) _ s e in
      let (o, s₁, q, e₁) = >>=-eq-ok (handle_tracking env host) _ s₀ e₀ in
      let (rh, s₂, k, e₂) = >>=-eq-ok (ok_or _ o) _ s₁ e₁ in
      let (ans, s₃, a, e₃) = >>=-eq-ok (attempt (allocation_is_allowed env rh.id)) _ s₂ e₂ in
      let (some_row, same₀) = ok_or-eq-ok _ hosts s r in
      let same₁ = query_opt_lem _ s₀ q in
      let (some_rh, same₂) = ok_or-eq-ok _ o s₁ k in
      let (yes_free, eq, same₄) = or_unavailable_lem rh ans s₃ e₃ in
      let (same₃, free) = allowed_lem rh.id s₂ (
        attempt-eq-ok (allocation_is_allowed env rh.id) s₂
          (subst (λ r. attempt (allocation_is_allowed env rh.id) s₂ ≡ (ok r, s₃)) yes_free a)) in
      ground arith
