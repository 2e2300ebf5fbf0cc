-- ===== src/Deploy/Booking/Books.antt =====
-- deploy_booking/mod.rs: the rows that `BookingTask::run` adds for the users.
use laas_reflab.Prelude.{
  ℕ, ◌≡◌, ◌≢◌, refl, sym, ap, subst, ◌∙◌, arith, String, Bool, true, false, none, some, List, [],
  ◌∷◌, ◌++◌, All, length, append-[], append-cons,
}
use laas_reflab.Dal.Transaction.{
  Res, ok, err, panicked, Session, M, pure, expect, close, and_then, unwrap_result, >>=-eq-ok,
  expect-eq-ok, pure-eq-ok,
}
use laas_reflab.Models.Dashboard.{active}
use laas_reflab.Models.Dashboard.Aggregate.{Aggregate}
use laas_reflab.Models.Dashboard.Instance.{Instance}
use laas_reflab.Allocation.Db.{Allocation, Db, Env, for_booking}
use laas_reflab.Allocation.Handle.{vpn_access, allocate_one}
use laas_reflab.Allocation.Handle.Found.{Inv}
use laas_reflab.Allocation.Handle.Grants.{allocate_one_grants}
use laas_reflab.Allocation.Allocator.{allocate_vpn}
use laas_reflab.Allocation.Allocator.Keeping.{Call, call-Inv}
use laas_reflab.Deploy.Booking.{all_deployed, conclude, give_vpns, run}

-- A live allocation of the aggregate, for a booking.
abbrev pub Held : ℕ → Allocation → Type 0
Held agg a = (a.for_aggregate ≡ some agg) × (a.ended ≡ none) × (a.reason_started ≡ for_booking)

-- One row was added for each user, and none was changed.
abbrev pub Vpns : ℕ → List String → Session Db → Session Db → Type 0
Vpns agg users s s' =
    (rows : List Allocation) × (s'.db.allocations ≡ s.db.allocations ++ rows)
    × (length rows ≡ length users)
    × All (Held agg) rows

module _ (env : Env) where
  allocate_vpn_lem :
      (agg : ℕ) (user project : String) (s : Session Db) {s' : Session Db}
      → Inv s.db
      → allocate_vpn env agg user project s ≡ (ok tt, s')
      → ((row : Allocation) × (s'.db.allocations ≡ s.db.allocations ++ row ∷ []) × Held agg row)
        × Inv s'.db
  unfolding allocate_vpn
  allocate_vpn_lem agg user project s {s'} v e =
      let (h, u, q, e₁) =
        >>=-eq-ok (allocate_one env (vpn_access project user) (some agg) for_booking [])
          (λ vpn. pure tt) s e in
      let g = allocate_one_grants env (vpn_access project user) (some agg) for_booking [] s v q in
      let (p, last) = pure-eq-ok tt u e₁ in
      let kept = call-Inv env [] (Call.vpn agg user project) s v in
      (
        (_, ap (λ x. x.db.allocations) last ∙ g.one_row, (refl, refl, refl)),
        subst (λ x. Inv x.1.db) e kept,
      )

  give_vpns_lem :
      (agg : ℕ) (project : String) (users : List String) (s : Session Db) {s' : Session Db}
      → Inv s.db
      → give_vpns env agg project users s ≡ (ok tt, s')
      → Vpns agg users s s' × Inv s'.db
  give_vpns_lem agg project [] s {s'} v e =
      let (p, last) = pure-eq-ok tt s e in
      (
        ([], ap (λ x. x.db.allocations) last ∙ sym (append-[] s.db.allocations), refl, tt),
        subst (λ x. Inv x.db) (sym last) v,
      )
  give_vpns_lem agg project (user ∷ users) s {s'} v e =
      let (d, u, q, e₁) =
        >>=-eq-ok (expect (allocate_vpn env agg user project))
          (λ _. give_vpns env agg project users) s e in
      let ((row, added, held), w) =
        allocate_vpn_lem agg user project s v
          (expect-eq-ok (allocate_vpn env agg user project) s q) in
      let ((rows, more, count, all), last) = give_vpns_lem agg project users u w e₁ in
      (
        (
          row ∷ rows,
          more ∙ ap (λ l. l ++ rows) added ∙ append-cons s.db.allocations row rows,
          omega arith,
          (held, all),
        ),
        last,
      )

  -- `unwrap` turns an error into a panic.
  give_vpns-firm :
      (agg : ℕ) (project : String) (users : List String) (x : String) (s : Session Db)
      → (give_vpns env agg project users s).0 ≢ err x
  give_vpns-firm agg project [] x s = ground arith
  give_vpns-firm agg project (user ∷ users) x s =
      go (allocate_vpn env agg user project s) (λ u. give_vpns-firm agg project users x u)
    where
      rest : M Db (Unit {0})
      rest = give_vpns env agg project users

      go :
          (r : Res (Unit {0}) × Session Db)
          → ((u : Session Db) → (rest u).0 ≢ err x)
          → (and_then (λ _. rest) (unwrap_result r)).0 ≢ err x
      go (ok tt, u) more = more u
      go (err y, u) more = ground arith
      go (panicked, u) more = ground arith

  -- How a BookingTask ends.
  abbrev pub Booked :
      {J : Type 0}
      → (ℕ → Bool)
      → Aggregate
      → List (Instance J)
      → Session Db
      → Res Aggregate × Session Db
      → Type 0
  Booked deployed agg instances s (ok after, s') =
      (all_deployed deployed instances ≡ true)
      × (after ≡ record agg { state = active })
      × Vpns agg.id agg.users s s'
      × Inv s'.db
  Booked deployed agg instances s (err e, s') =
      (all_deployed deployed instances ≡ false) × Vpns agg.id agg.users s s' × Inv s'.db
  Booked deployed agg instances s (panicked, s') = s'.db ≡ s.db

  Booked-conclude :
      {J : Type 0} (deployed : ℕ → Bool) (agg : Aggregate) (instances : List (Instance J))
      (b : Bool) (s u : Session Db)
      → all_deployed deployed instances ≡ b
      → Vpns agg.id agg.users s u
      → Inv u.db
      → Booked deployed agg instances s (close s (ok (conclude agg b), u))
  Booked-conclude deployed agg instances true s u q vpns v = (q, refl, vpns, v)
  Booked-conclude deployed agg instances false s u q vpns v = (q, vpns, v)

  -- Of the calls modelled here, where no resource is held twice: `run` returns `Ok` only when every host
  -- was provisioned, and an error only when some host was not. Either way one row is added for each
  -- user, and no resource is held twice. If it panics, it changes no table.
  run_books :
      {J : Type 0} (deployed : ℕ → Bool) (agg : Aggregate) (instances : List (Instance J))
      (s : Session Db)
      → Inv s.db
      → Booked deployed agg instances s (run env deployed agg instances s)
  unfolding run
  run_books deployed agg instances s v = go (give_vpns env agg.id agg.origin agg.users s) refl
    where
      b : Bool
      b = all_deployed deployed instances

      go :
          (r : Res (Unit {0}) × Session Db)
          → give_vpns env agg.id agg.origin agg.users s ≡ r
          → Booked deployed agg instances s (close s (and_then (λ _. pure (conclude agg b)) r))
      go (ok tt, u) e =
          let (vpns, w) = give_vpns_lem agg.id agg.origin agg.users s v e in
          Booked-conclude deployed agg instances b s u refl vpns w
      go (err x, u) e = absurd (give_vpns-firm agg.id agg.origin agg.users x s (ap (λ r. r.0) e))
      go (panicked, u) e = refl
