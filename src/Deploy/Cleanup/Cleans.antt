-- ===== src/Deploy/Cleanup/Cleans.antt =====
-- cleanup_booking/mod.rs: which hosts `CleanupAggregate` cleans, and what it leaves allocated.
use laas_reflab.Prelude.{
  ℕ, ◌≤◌, ◌≡◌, refl, sym, ap, subst, ◌∙◌, arith, Bool, true, false, Option, none, some, List, [],
  ◌∷◌, ◌==◌, ==_iff, All, select, Bool-cases, inl, inr,
}
use laas_reflab.Dal.Transaction.{
  Res, ok, Session, M, pure, expect, close, Ending, commits, >>=-eq-ok, ok_or-eq-ok, pure-eq-ok,
  expect-eq-ok, transaction-eq-ok,
}
use laas_reflab.Models.Dashboard.{LifeCycleState, active, new, done}
use laas_reflab.Models.Dashboard.Aggregate.{Aggregate}
use laas_reflab.Models.Dashboard.Instance.{Instance}
use laas_reflab.Allocation.Db.{
  Allocation, Db, Env, ResourceHandle, tracked, option_eq, all_for_aggregate,
}
use laas_reflab.Allocation.Handle.{
  handle_tracking, currently_owned_by, query_opt, owns, deallocate_all_for,
}
use laas_reflab.Allocation.Handle.Found.{Inv}
use laas_reflab.Allocation.Handle.ReleaseAll.{held_count, deallocate_all_releases}
use laas_reflab.Allocation.Allocator.{deallocate_aggregate}
use laas_reflab.Deploy.Cleanup.{
  Cleaned, spawn_if, handle_for_host, clean_host, clean_each, clean_up, when_active, run,
}

-- A handle of the host is held by the aggregate.
abbrev pub Own : ℕ → Db → ℕ × ℕ → Type 0
Own agg db (instance_id, host) =
    (h : ResourceHandle) × (tracked h.tracks ≡ host) × (1 ≤ held_count agg h.id db.allocations)

module _ (env : Env) where
  owns-held_count :
      (h agg : ℕ) (xs : List Allocation)
      → owns env h (select (λ a. option_eq a.for_aggregate (some agg)) xs) ≡ true
      → 1 ≤ held_count agg h xs
  owns-held_count h agg [] e = absurd (ground arith)
  owns-held_count h agg (x ∷ xs) e = ground (arith, owns-held_count h agg xs)

  select-head :
      (host : ℕ) (hs : List ResourceHandle) (h : ResourceHandle) (rest : List ResourceHandle)
      → select (λ h. tracked h.tracks == host) hs ≡ h ∷ rest
      → tracked h.tracks ≡ host
  select-head host [] h rest e = absurd (ground arith)
  select-head host (x ∷ hs) h rest e = elim (Bool-cases (tracked x.tracks == host)) [
    | inl y ↦
        let same : x ≡ h = ground arith in
        sym (ap (λ g. tracked g.tracks) same) ∙ (==_iff (tracked x.tracks) host).0 y
    | inr n ↦ select-head host hs h rest (ground arith)
  ]

  query_opt-tracked :
      (host : ℕ) (hs l : List ResourceHandle) (s : Session Db) {h : ResourceHandle} {u : Session Db}
      → select (λ h. tracked h.tracks == host) hs ≡ l
      → query_opt env l s ≡ (ok (some h), u)
      → (tracked h.tracks ≡ host) × (u ≡ s)
  query_opt-tracked host hs [] s q e = absurd (ground arith)
  query_opt-tracked host hs (x ∷ []) s {h} {u} q e =
      let same : x ≡ h = ground arith in
      (sym (ap (λ g. tracked g.tracks) same) ∙ select-head host hs x [] q, ground arith)
  query_opt-tracked host hs (x ∷ y ∷ l) s q e = absurd (ground arith)

  handle_for_host-tracked :
      (host : ℕ) (s : Session Db) {h : ResourceHandle} {u : Session Db}
      → handle_for_host env host s ≡ (ok h, u)
      → (tracked h.tracks ≡ host) × (u ≡ s)
  unfolding handle_for_host handle_tracking
  handle_for_host-tracked host s {h} {u} e =
      let (row, v, q, e₁) = >>=-eq-ok (handle_tracking env host) _ s e in
      let (p, same) = ok_or-eq-ok "No resource handle existed for host" row v e₁ in
      let q' : query_opt env (select (λ h. tracked h.tracks == host) s.db.resource_handles) s
          ≡ (ok (some h), u) =
        ground arith in
      query_opt-tracked host s.db.resource_handles _ s refl q'

  currently_owned_by-held_count :
      (h : ResourceHandle) (agg : ℕ) (s : Session Db) {b : Bool} {u : Session Db}
      → currently_owned_by env h agg s ≡ (ok b, u)
      → (b ≡ owns env h.id (select (λ a. option_eq a.for_aggregate (some agg)) s.db.allocations))
        × (u ≡ s)
  unfolding currently_owned_by all_for_aggregate
  currently_owned_by-held_count h agg s e = ground arith

  -- A part of the loop changes nothing, and gives only hosts that the aggregate holds.
  abbrev Sound : ℕ → M Db Cleaned → Type 0
  Sound agg m =
      (s : Session Db) (xs : Cleaned) (u : Session Db)
      → m s ≡ (ok xs, u)
      → (u ≡ s) × All (Own agg s.db) xs

  spawn_if-Sound :
      (agg i host : ℕ) (b : Bool) (m : M Db Cleaned) (s : Session Db) {xs : Cleaned}
      {u : Session Db}
      → Sound agg m
      → (b ≡ true → Own agg s.db (i, host))
      → spawn_if b (i, host) m s ≡ (ok xs, u)
      → (u ≡ s) × All (Own agg s.db) xs
  spawn_if-Sound agg i host false m s {xs} {u} k own e = k s xs u e
  spawn_if-Sound agg i host true m s {xs} {u} k own e =
      let (rest, v, q, e₁) = >>=-eq-ok m (λ rest. pure ((i, host) ∷ rest)) s e in
      let (same, all) = k s rest v q in
      let (p, last) = pure-eq-ok ((i, host) ∷ rest) v e₁ in
      (last ∙ same, subst (All (Own agg s.db)) p (own refl, all))

  clean_host-Sound :
      (agg i : ℕ) (o : Option ℕ) (m : M Db Cleaned)
      → Sound agg m
      → Sound agg (clean_host env agg i o m)
  clean_host-Sound agg i none m k s xs u e = k s xs u e
  clean_host-Sound agg i (some host) m k s xs u e =
      let (h, v, q, e₁) = >>=-eq-ok (handle_for_host env host) _ s e in
      let (tracks, same) = handle_for_host-tracked host s q in
      let (b, w, q₁, e₂) =
        >>=-eq-ok (currently_owned_by env h agg) (λ b. spawn_if b (i, host) m) v e₁ in
      let (owned, same₁) = currently_owned_by-held_count h agg v q₁ in
      let here : w ≡ s = same₁ ∙ same in
      let owned' : b
          ≡ owns env h.id (select (λ a. option_eq a.for_aggregate (some agg)) s.db.allocations) =
        owned
        ∙ ap
            (λ x.
              owns env h.id (select (λ a. option_eq a.for_aggregate (some agg)) x.db.allocations))
            same in
      spawn_if-Sound agg i host b m s k
        (λ y. (h, tracks, owns-held_count h.id agg s.db.allocations (sym owned' ∙ y)))
        (ap (λ x. spawn_if b (i, host) m x) (sym here) ∙ e₂)

  clean_each-Sound :
      {J : Type 0} (agg : ℕ) (is : List (Instance J)) → Sound agg (clean_each env agg is)
  clean_each-Sound agg [] s xs u e =
      let (p, q) = pure-eq-ok [] s e in (q, subst (All (Own agg s.db)) p tt)
  clean_each-Sound agg (i ∷ is) s xs u e =
      clean_host-Sound agg i.id i.linked_host (clean_each env agg is) (clean_each-Sound agg is) s xs
        u e

  when_active-ok :
      (state : LifeCycleState) (m : M Db (Ending (Cleaned × Aggregate))) (s : Session Db)
      {r : Ending (Cleaned × Aggregate)} {u : Session Db}
      → when_active env state m s ≡ (ok r, u)
      → (state ≡ active) × (m s ≡ (ok r, u))
  when_active-ok active m s e = (refl, e)
  when_active-ok new m s e = absurd (ground arith)
  when_active-ok done m s e = absurd (ground arith)

  -- Where no resource is held twice, a `CleanupAggregate` that succeeds was of an active booking. It
  -- has spawned a cleanup only for hosts of which the booking held a handle, it leaves the booking
  -- with no live allocation of any resource and no resource held twice, and it changes nothing of the
  -- aggregate but its state, which is done.
  pub run_cleans :
      {J : Type 0} (agg : Aggregate) (instances : List (Instance J)) (s : Session Db)
      {cleaned : Cleaned} {after : Aggregate} {s' : Session Db}
      → Inv s.db
      → run env agg instances s ≡ (ok (cleaned, after), s')
      → (agg.state ≡ active)
        × All (Own agg.id s.db) cleaned
        × ((r : ℕ) → held_count agg.id r s'.db.allocations ≡ 0)
        × Inv s'.db
        × (after ≡ record agg { state = done })
  unfolding run deallocate_aggregate
  run_cleans agg instances s {cleaned} {after} {s'} v e =
      let (how, u, b, c) =
        transaction-eq-ok (when_active env agg.state (clean_up env agg instances)) s e in
      let (is_active, b₁) = when_active-ok agg.state (clean_up env agg instances) s b in
      let (xs, s₁, q, e₁) = >>=-eq-ok (clean_each env agg.id instances) _ s b₁ in
      let (same, all) = clean_each-Sound agg.id instances s xs s₁ q in
      let (d, s₂, q₁, e₂) =
        >>=-eq-ok (expect (deallocate_all_for env agg.id))
          (λ _. pure (commits (ok (xs, record agg { state = done })))) s₁ e₁ in
      let freed = expect-eq-ok (deallocate_all_for env agg.id) s₁ q₁ in
      let (gone, fewer, inv) =
        deallocate_all_releases env agg.id s₁ (subst (λ x. Inv x.db) (sym same) v) freed in
      let (p, last) = pure-eq-ok (commits (ok (xs, record agg { state = done }))) s₂ e₂ in
      let closing : Ending (Cleaned × Aggregate) → Res (Cleaned × Aggregate) × Session Db =
        λ h. close s (ok h, u) in
      let finished : Ending (Cleaned × Aggregate) =
        commits (ok (xs, record agg { state = done })) in
      let c' : closing finished ≡ (ok (cleaned, after), s') = ap closing p ∙ c in
      let end : s' ≡ s₂ = ground arith in
      (
        is_active,
        subst (All (Own agg.id s.db)) (ground arith) all,
        λ r. ap (λ x. held_count agg.id r x.db.allocations) end ∙ gone r,
        subst (λ x. Inv x.db) (sym end) inv,
        ground arith,
      )
