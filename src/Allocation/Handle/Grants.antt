-- ===== src/Allocation/Handle/Grants.antt =====
-- allocation.rs, `allocate_one`: what a grant is, and that no resource is held twice.
use laas_reflab.Prelude.{
  ℕ, ◌+◌, ◌≡◌, refl, ◌∙◌, sym, ap, subst, ◌≢◌, arith, true, false, Option, List, [], ◌∷◌, ◌++◌,
}
use laas_reflab.Dal.Transaction.{
  Res, ok, err, panicked, Session, >>=-eq-ok, pure, Ending, commits, transaction-eq-ok, close,
}
use laas_reflab.Allocation.Db.{ResourceHandle, AllocationReason, Db, Env, insert_allocation}
use laas_reflab.Allocation.Handle.{
  ResourceRequestInner, find_one_available, granted, grant, find_and_grant, allocate_one,
}
use laas_reflab.Allocation.Handle.Found.{
  Inv, handle_known, Found, find_one_available-Found, live_count-append, insert_allocation_lem,
}
use laas_reflab.Allocation.Handle.Free.{live_count}

-- What a grant did: the handle had no live allocation, and the one new row is a live one of it.
pub record Granted (agg : Option ℕ) (reason : AllocationReason) (s : Session Db)
    (h : ResourceHandle) (s' : Session Db) : Type 0 where
  pub was_free : live_count h.id s.db.allocations ≡ 0
  pub row_id : ℕ
  pub row_started : ℕ
  pub one_row :
      s'.db.allocations ≡ s.db.allocations ++ granted row_id h.id agg row_started reason ∷ []
  pub maps : s'.db.network_assignments ≡ s.db.network_assignments
  pub has_handle : handle_known h.id s'.db ≡ true
  pub handles : (r : ℕ) → handle_known r s'.db ≡ false → handle_known r s.db ≡ false

row-Granted :
    (agg : Option ℕ) (reason : AllocationReason) (id now : ℕ) (s s₁ s₂ s₃ s' : Session Db)
    (r h : ResourceHandle) (how : Ending ResourceHandle) (u : Session Db)
    → Found s r s₁
    → s₂.db ≡ s₁.db
    → s₃ ≡ record s₂ {
      db = record (s₂.db) {
        allocations = s₂.db.allocations ++ granted id r.id agg now reason ∷ [];
      };
    }
    → handle_known r.id s₂.db ≡ true
    → pure (commits (ok r)) s₃ ≡ (ok how, u)
    → close s (ok how, u) ≡ (ok h, s')
    → Granted agg reason s h s'
row-Granted agg reason id now s s₁ s₂ s₃ s' r h how u f a b k p c =
    let same_how : how ≡ commits (ok r) = ground arith in
    let same_u : u ≡ s₃ = ground arith in
    let c' : close s (ok (commits (ok r)), s₃) ≡ (ok h, s') = cc in
    let same_h : r ≡ h = ground arith in
    let last : s' ≡ s₃ = ground arith in
    subst (λ g. Granted agg reason s g s') same_h
      (record {
        was_free = f.free;
        row_id = id;
        row_started = now;
        one_row = ground arith;
        maps =
            ap (λ w. w.db.network_assignments) last
            ∙ ap (λ w. w.db.network_assignments) b
            ∙ ap (λ d. d.network_assignments) a
            ∙ f.maps;
        has_handle = ground arith;
        handles = λ q e. f.handles q (subst (λ d. handle_known q d ≡ false) a (ground arith));
      })

module _ (env : Env) (filter : ResourceRequestInner) (agg : Option ℕ) (reason : AllocationReason)
    (except_for : List ℕ) (s : Session Db) where
  -- While no resource is held twice, an `allocate_one` that succeeds gives out a handle that had no
  -- live allocation, and adds one row to `allocations`, a live one of the handle, for the aggregate
  -- and with the reason asked for.
  pub allocate_one_grants :
      {h : ResourceHandle} {s' : Session Db}
      → Inv s.db
      → allocate_one env filter agg reason except_for s ≡ (ok h, s')
      → Granted agg reason s h s'
  unfolding allocate_one
  allocate_one_grants {h} {s'} v e =
      let (how, u, b, c) =
        transaction-eq-ok (find_and_grant env filter agg reason except_for) s e in
      let (r, s₁, f, e₁) =
        >>=-eq-ok (find_one_available env filter except_for) (grant env agg reason) s b in
      let found = find_one_available-Found env filter except_for s f v in
      let row = granted (env.uuid s₁.draws) r.id agg (env.clock (s₁.draws + 1)) reason in
      let s₂ : Session Db = record s₁ { draws = s₁.draws + 1 + 1 } in
      let (done, s₃, i, e₂) =
        >>=-eq-ok (insert_allocation row) (λ _. pure (commits (ok r))) s₂ e₁ in
      let (added, has) = insert_allocation_lem row s₂ i in
      row-Granted agg reason _ _ s s₁ s₂ s₃ s' r h how u found refl added has e₂ c

  grants_ok :
      (how : Ending ResourceHandle) (u : Session Db)
      → find_and_grant env filter agg reason except_for s ≡ (ok how, u)
      → (r : ResourceHandle) × (how ≡ commits (ok r))
  grants_ok how u b =
      let (r, s₁, f, e₁) =
        >>=-eq-ok (find_one_available env filter except_for) (grant env agg reason) s b in
      let row = granted (env.uuid s₁.draws) r.id agg (env.clock (s₁.draws + 1)) reason in
      let s₂ : Session Db = record s₁ { draws = s₁.draws + 1 + 1 } in
      let (done, s₃, i, e₂) =
        >>=-eq-ok (insert_allocation row) (λ _. pure (commits (ok r))) s₂ e₁ in
      (r, ground arith)

  -- An `allocate_one` that does not succeed leaves the tables as they were, also where it added rows
  -- before it failed.
  pub allocate_one_fails :
      {x : Res ResourceHandle} {s' : Session Db}
      → allocate_one env filter agg reason except_for s ≡ (x, s')
      → ((h : ResourceHandle) → x ≢ ok h)
      → s'.db ≡ s.db
  unfolding allocate_one
  allocate_one_fails {x} {s'} e not_ok =
      go (find_and_grant env filter agg reason except_for s) refl e
    where
      go :
          (b : Res (Ending ResourceHandle) × Session Db)
          → find_and_grant env filter agg reason except_for s ≡ b
          → close s b ≡ (x, s')
          → s'.db ≡ s.db
      go (ok how, u) b q =
          let (r, same) = grants_ok how u b in
          let q' : close s (ok (commits (ok r)), u) ≡ (x, s') = cc in
          absurd (not_ok r (ground arith))
      go (err y, u) b q = ground arith
      go (panicked, u) b q = ground arith

pub Granted-Inv :
    (agg : Option ℕ) (reason : AllocationReason) (s : Session Db) (h : ResourceHandle)
    (s' : Session Db)
    → Granted agg reason s h s'
    → Inv s.db
    → Inv s'.db
Granted-Inv agg reason s h s' g v =
    let row = granted g.row_id h.id agg g.row_started reason in
    let free = g.was_free in
    let rows = g.one_row in
    let has = g.has_handle in
    record {
      one_holder = λ r.
          let was = v.one_holder r in
          let split = live_count-append r s.db.allocations (row ∷ []) in ground arith;
      known = λ r e.
          let was = v.known r (g.handles r e) in
          let split = live_count-append r s.db.allocations (row ∷ []) in ground arith;
    }

module _ (env : Env) (filter : ResourceRequestInner) (agg : Option ℕ) (reason : AllocationReason)
    (except_for : List ℕ) (s : Session Db) where
  -- `allocate_one` keeps the invariant: no resource gets a second live allocation, and no allocation
  -- is live for a resource without a handle, whatever it ends in.
  pub allocate_one-Inv : Inv s.db → Inv (allocate_one env filter agg reason except_for s).1.db
  allocate_one-Inv v = go (allocate_one env filter agg reason except_for s) refl
    where
      go :
          (b : Res ResourceHandle × Session Db)
          → allocate_one env filter agg reason except_for s ≡ b
          → Inv b.1.db
      go (ok h, u) q =
          Granted-Inv agg reason s h u (allocate_one_grants env filter agg reason except_for s v q)
            v
      go (err y, u) q =
          subst Inv
            (sym (allocate_one_fails env filter agg reason except_for s q (λ h. ground arith))) v
      go (panicked, u) q =
          subst Inv
            (sym (allocate_one_fails env filter agg reason except_for s q (λ h. ground arith))) v
