-- ===== src/Deploy/Freeing/Frees.antt =====
-- deploy_booking/mod.rs: what `free_hosts` and `mark_not_working` leave in the tables.
use laas_reflab.Prelude.{
  ℕ, ◌≤◌, ◌≡◌, ◌≢◌, ◌⊎◌, inl, inr, refl, sym, ap, subst, ◌∙◌, arith, true, Option, none, some, List,
  [], ◌∷◌, ◌==◌, ==_iff, Bool-cases, contains, Distinct, map,
}
use laas_reflab.Dal.Transaction.{
  Res, ok, err, panicked, Session, M, and_then, caught, commits, pure, close,
}
use laas_reflab.Allocation.Db.{
  ResourceHandle, Allocation, Db, Env, option_eq, row_allowed, get_handle, find, update_allocation,
}
use laas_reflab.Allocation.Handle.{deallocate_one, end_allocation, write_end}
use laas_reflab.Allocation.Allocator.{deallocate_host}
use laas_reflab.Allocation.Handle.Free.{live_count}
use laas_reflab.Allocation.Handle.Found.{Inv, handle_known}
use laas_reflab.Allocation.Handle.Releases.{
  first_live, ended_row, ids, Released, Released-live_count, Released-Inv, Released-free,
  deallocate_one_releases, deallocate_one_fails,
}
use laas_reflab.Allocation.Handle.Progress.{
  get_known, others, deallocate_one_succeeds, after_release,
}
use laas_reflab.Deploy.Freeing.{whatever, free_each, free_hosts}
use laas_reflab.Deploy.Freeing.Ready.{
  Ready, Ready-later, Ready-row_allowed, Released-Distinct, Released-Ready,
}

abbrev pub handle_ids : List ResourceHandle → List ℕ
handle_ids hosts = map (λ h. h.id) hosts

module _ (env : Env) (agg : ℕ) where
  -- What one `deallocate_host` does: it released the resource, or it changed no table.
  abbrev Turn : ℕ → Session Db → Res (Unit {0}) × Session Db → Type 0
  Turn r s (ok u, s') = Released env (some agg) r s s'
  Turn r s (err e, s') = s'.db ≡ s.db
  Turn r s (panicked, s') = s'.db ≡ s.db

  Turn-deallocate_one : (r : ℕ) (s : Session Db) → Turn r s (deallocate_one env (some agg) r s)
  Turn-deallocate_one r s = go (deallocate_one env (some agg) r s) refl
    where
      go : (x : Res (Unit {0}) × Session Db) → deallocate_one env (some agg) r s ≡ x → Turn r s x
      go (ok tt, s') e = deallocate_one_releases env (some agg) r s e
      go (err y, s') e = deallocate_one_fails env (some agg) r s e (ground arith)
      go (panicked, s') e = deallocate_one_fails env (some agg) r s e (ground arith)

  first_live-live_count :
      (r : ℕ) (a : Allocation) (xs : List Allocation)
      → first_live r xs ≡ some a
      → 1 ≤ live_count r xs
  first_live-live_count r a [] e = absurd (ground arith)
  first_live-live_count r a (x ∷ xs) e = ground (arith, first_live-live_count r a xs)

  -- It does not panic, and it takes back no time that was drawn.
  abbrev Calm : Session Db → Res (Unit {0}) × Session Db → Type 0
  Calm s x = (x.0 ≢ panicked) × (s.draws ≤ x.1.draws)

  write_end-Calm :
      (r : ℕ) (a : Allocation) (s : Session Db)
      → handle_known r s.db ≡ true
      → Calm s (close s (write_end env r a s))
  unfolding get_handle update_allocation
  write_end-Calm r a s k =
      let (h, found) = get_known r s.db.resource_handles k in
      elim (Bool-cases
        (row_allowed s.db (others env (some agg) r s a) (ended_row a (env.clock s.draws)))) [
          | inl y ↦ (ground arith, ground arith)
          | inr n ↦ (ground arith, ground arith)
        ]

  end_allocation-Calm :
      (r : ℕ) (o : Option Allocation) (s : Session Db)
      → Inv s.db
      → first_live r s.db.allocations ≡ o
      → Calm s (close s (end_allocation env (some agg) r o s))
  end_allocation-Calm r none s v e = (ground arith, ground arith)
  end_allocation-Calm r (some a) s v e =
      let some_live = first_live-live_count r a s.db.allocations e in
      let known : handle_known r s.db ≡ true = elim (Bool-cases (handle_known r s.db)) [
        | inl y ↦ y
        | inr n ↦ let none_live = v.known r n in absurd (omega arith)
      ] in
      elim (Bool-cases (option_eq a.for_aggregate (some agg))) [
        | inl y ↦ let calm = write_end-Calm r a s known in (ground arith, ground arith)
        | inr n ↦ (ground arith, ground arith)
      ]

  deallocate_one-Calm :
      (r : ℕ) (s : Session Db) → Inv s.db → Calm s (deallocate_one env (some agg) r s)
  unfolding deallocate_one find
  deallocate_one-Calm r s v = end_allocation-Calm r (first_live r s.db.allocations) s v refl

  -- The resource is to be freed by the rest of the list, or it is free.
  abbrev Due : ℕ → List ResourceHandle → Session Db → Type 0
  Due q hosts s =
      ((contains q (handle_ids hosts) ≡ true) × Ready env agg q s)
      ⊎ (live_count q s.db.allocations ≡ 0)

  Ready-freed :
      (q : ℕ) (s : Session Db)
      → Inv s.db
      → Ready env agg q s
      → live_count q (deallocate_one env (some agg) q s).1.db.allocations ≡ 0
  Ready-freed q s v ready =
      let a = ready.row in
      let done =
        deallocate_one_succeeds env (some agg) q s a ready.live ready.held ready.known
          (Ready-row_allowed env agg q s ready) in
      let u : Session Db = after_release env (some agg) q s a in
      ap (λ x. live_count q x.1.db.allocations) done
      ∙ Released-free env (some agg) q s u (deallocate_one_releases env (some agg) q s done) v

  -- A turn of the loop about another resource, whatever its result.
  Ready-Turn :
      (q r : ℕ) (s : Session Db) (x : Res (Unit {0}) × Session Db)
      → Distinct (ids s.db.allocations)
      → Turn r s x
      → s.draws ≤ x.1.draws
      → q ≢ r
      → Ready env agg q s
      → Ready env agg q x.1
  Ready-Turn q r s (ok u, s') d t le n ready =
      Released-Ready env agg q (some agg) r s s' t d n ready
  Ready-Turn q r s (err y, s') d t le n ready = Ready-later env agg q s s' t le ready
  Ready-Turn q r s (panicked, s') d t le n ready = Ready-later env agg q s s' t le ready

  live_count-Turn :
      (q r : ℕ) (s : Session Db) (x : Res (Unit {0}) × Session Db)
      → Turn r s x
      → live_count q x.1.db.allocations ≤ live_count q s.db.allocations
  live_count-Turn q r s (ok u, s') t = Released-live_count env (some agg) r s s' t q
  live_count-Turn q r s (err y, s') t = ground (arith, ap (λ db. live_count q db.allocations) t)
  live_count-Turn q r s (panicked, s') t = ground (arith, ap (λ db. live_count q db.allocations) t)

  Distinct-Turn :
      (r : ℕ) (s : Session Db) (x : Res (Unit {0}) × Session Db)
      → Turn r s x
      → Distinct (ids s.db.allocations)
      → Distinct (ids x.1.db.allocations)
  Distinct-Turn r s (ok u, s') t d = Released-Distinct env (some agg) r s s' t d
  Distinct-Turn r s (err y, s') t d = subst (λ db. Distinct (ids db.allocations)) (sym t) d
  Distinct-Turn r s (panicked, s') t d = subst (λ db. Distinct (ids db.allocations)) (sym t) d

  Inv-Turn :
      (r : ℕ) (s : Session Db) (x : Res (Unit {0}) × Session Db)
      → Turn r s x
      → Inv s.db
      → Inv x.1.db
  Inv-Turn r s (ok u, s') t v = Released-Inv env (some agg) r s s' t v
  Inv-Turn r s (err y, s') t v = subst Inv (sym t) v
  Inv-Turn r s (panicked, s') t v = subst Inv (sym t) v

  Due-Turn :
      (q : ℕ) (h : ResourceHandle) (hosts : List ResourceHandle) (s : Session Db)
      → Inv s.db
      → Distinct (ids s.db.allocations)
      → Due q (h ∷ hosts) s
      → Due q hosts (deallocate_one env (some agg) h.id s).1
  Due-Turn q h hosts s v d (inr z) =
      let less =
        live_count-Turn q h.id s (deallocate_one env (some agg) h.id s)
          (Turn-deallocate_one h.id s) in
      inr (omega arith)
  Due-Turn q h hosts s v d (inl (c, ready)) = elim (Bool-cases (h.id == q)) [
    | inl y ↦ inr (
        subst (λ r. live_count q (deallocate_one env (some agg) r s).1.db.allocations ≡ 0)
          (sym ((==_iff h.id q).0 y)) (Ready-freed q s v ready))
    | inr n ↦ inl (
      ground arith,
      Ready-Turn q h.id s (deallocate_one env (some agg) h.id s) d (Turn-deallocate_one h.id s)
          (deallocate_one-Calm h.id s v).1 (λ p. ground (arith, n, ==_iff h.id q, sym p)) ready,
    )
  ]

  free_each_lem :
      (q : ℕ) (hosts : List ResourceHandle) (s : Session Db)
      → Inv s.db
      → Distinct (ids s.db.allocations)
      → Due q hosts s
      → (s' : Session Db) × (free_each env agg hosts s ≡ (ok tt, s'))
        × (live_count q s'.db.allocations ≡ 0)
  unfolding deallocate_host
  free_each_lem q [] s v d (inl (c, ready)) = absurd (ground arith)
  free_each_lem q [] s v d (inr z) = (s, refl, z)
  free_each_lem q (h ∷ hosts) s v d due =
      go (deallocate_one env (some agg) h.id s) refl (deallocate_one-Calm h.id s v).0 (
        free_each_lem q hosts (deallocate_one env (some agg) h.id s).1
          (Inv-Turn h.id s (deallocate_one env (some agg) h.id s) (Turn-deallocate_one h.id s) v)
          (Distinct-Turn h.id s (deallocate_one env (some agg) h.id s) (Turn-deallocate_one h.id s)
            d)
          (Due-Turn q h hosts s v d due))
    where
      rest : M Db (Unit {0})
      rest = free_each env agg hosts

      go :
          (x : Res (Unit {0}) × Session Db)
          → deallocate_one env (some agg) h.id s ≡ x
          → x.0 ≢ panicked
          → (s' : Session Db) × (rest x.1 ≡ (ok tt, s')) × (live_count q s'.db.allocations ≡ 0)
          → (s' : Session Db) × (and_then (whatever rest) (caught x) ≡ (ok tt, s'))
            × (live_count q s'.db.allocations ≡ 0)
      go (ok u, s₁) e n done = done
      go (err y, s₁) e n done = done
      go (panicked, s₁) e n done = absurd (n refl)

  -- Where no resource is held twice, none without a handle is held, and the ids of the allocations are
  -- distinct: when a handle in the list is of a resource that the aggregate holds, and that the database
  -- lets it give back at any time that is still to be drawn, `free_hosts` succeeds on the whole list,
  -- and that resource is free afterwards.
  pub free_hosts_frees :
      (q : ℕ) (hosts : List ResourceHandle) (s : Session Db)
      → Inv s.db
      → Distinct (ids s.db.allocations)
      → contains q (handle_ids hosts) ≡ true
      → Ready env agg q s
      → (s' : Session Db) × (free_hosts env hosts agg s ≡ (ok tt, s'))
        × (live_count q s'.db.allocations ≡ 0)
  unfolding free_hosts
  free_hosts_frees q hosts s v d c ready =
      let (s', done, z) = free_each_lem q hosts s v d (inl (c, ready)) in
      (s', ap (λ r. close s (and_then (λ _. pure (commits (ok tt))) r)) done, z)
