-- ===== src/Allocation/Handle/Releases.antt =====
-- allocation.rs, `deallocate_one` and `deallocate_all`: what the end of an allocation changes.
use laas_reflab.Prelude.{
  ==_iff, ℕ, suc, ◌+◌, ◌≤◌, ◌≡◌, refl, sym, ap, subst, ◌∙◌, inl, inr, ◌≢◌, arith, true, false, ◌&&◌,
  Option, none, some, List, [], ◌∷◌, map, ◌==◌, if◌then◌else◌, any, select, head?, is_some,
  Bool-cases, ◌⊎◌, contains, Distinct,
}
use laas_reflab.Dal.Transaction.{
  Res, ok, err, panicked, Session, M, ◌>>=◌, >>=-eq-ok, expect, expect-eq-ok, pure, Ending, commits,
  rolls_back, transaction-eq-ok, close,
}
use laas_reflab.Allocation.Db.{
  ResourceHandle, Allocation, Db, Env, utc_now, is_null, option_eq, get_handle, replace_row,
  update_allocation, find,
}
use laas_reflab.Allocation.Handle.{write_end, end_allocation, end_first, deallocate_one}
use laas_reflab.Allocation.Handle.Free.{live_count, get_handle_lem}
use laas_reflab.Allocation.Handle.Found.{Inv}

-- The row as `deallocate_one` writes it back.
abbrev pub ended_row : Allocation → ℕ → Allocation
ended_row a t = record a { ended = some t }

live_count-replace_row :
    (r t : ℕ) (a : Allocation) (xs : List Allocation)
    → live_count r (replace_row (ended_row a t) xs) ≤ live_count r xs
live_count-replace_row r t a [] = omega arith
live_count-replace_row r t a (x ∷ xs) = ground (arith, live_count-replace_row r t a xs)

abbrev pub ids : List Allocation → List ℕ
ids xs = map (λ a. a.id) xs

abbrev pub first_live : ℕ → List Allocation → Option Allocation
first_live r xs =
    head? (
      select (λ a. (a.for_resource == r) && (if false then is_some a.ended else is_null a.ended))
        xs)

live_count-ended :
    (r t : ℕ) (a : Allocation) (xs : List Allocation)
    → first_live r xs ≡ some a
    → suc (live_count r (replace_row (ended_row a t) xs)) ≤ live_count r xs
live_count-ended r t a [] e = absurd (ground arith)
live_count-ended r t a (x ∷ xs) e =
    ground (arith, live_count-ended r t a xs, live_count-replace_row r t a xs)

pub replace_row-absent :
    (a b : Allocation) (xs : List Allocation)
    → a.id ≡ b.id
    → contains a.id (ids xs) ≡ false
    → replace_row b xs ≡ xs
replace_row-absent a b [] e c = refl
replace_row-absent a b (x ∷ xs) e c = ground (arith, replace_row-absent a b xs)

pub contains-first_live :
    (r : ℕ) (a : Allocation) (xs : List Allocation)
    → first_live r xs ≡ some a
    → contains a.id (ids xs) ≡ true
contains-first_live r a [] e = absurd (ground arith)
contains-first_live r a (x ∷ xs) e = ground (arith, contains-first_live r a xs)

live_count-other :
    (r q t : ℕ) (a : Allocation) (xs : List Allocation)
    → first_live r xs ≡ some a
    → Distinct (ids xs)
    → q ≢ r
    → live_count q (replace_row (ended_row a t) xs) ≡ live_count q xs
live_count-other r q t a [] e d n = refl
live_count-other r q t a (x ∷ xs) e d n = ground (
  arith,
  live_count-other r q t a xs,
  replace_row-absent a (ended_row a t) xs,
  contains-first_live r a xs,
)

-- What the end of an allocation did: the row was a live one of the resource, for the aggregate that
-- the caller named, and it alone was written back, as ended at the one time that the call drew.
pub record Released (env : Env) (agg : Option ℕ) (r : ℕ) (s s' : Session Db) : Type 0 where
  pub row : Allocation
  pub was_live : first_live r s.db.allocations ≡ some row
  pub of_caller : option_eq row.for_aggregate agg ≡ true
  pub rows : s'.db.allocations ≡ replace_row (ended_row row (env.clock s.draws)) s.db.allocations
  pub draws : s'.draws ≡ s.draws + 1
  pub same_handles : s'.db.resource_handles ≡ s.db.resource_handles
  pub same_aggregates : s'.db.aggregates ≡ s.db.aggregates

update_allocation_lem :
    (a : Allocation) (s : Session Db) {s' : Session Db}
    → update_allocation a s ≡ (ok tt, s')
    → s' ≡ record s { db = record (s.db) { allocations = replace_row a s.db.allocations } }
unfolding update_allocation
update_allocation_lem a s e = ground arith

pub Released-live_count :
    (env : Env) (agg : Option ℕ) (r : ℕ) (s s' : Session Db)
    → Released env agg r s s'
    → (q : ℕ) → live_count q s'.db.allocations ≤ live_count q s.db.allocations
Released-live_count env agg r s s' d q =
    subst (λ xs. live_count q xs ≤ live_count q s.db.allocations) (sym d.rows)
      (live_count-replace_row q (env.clock s.draws) d.row s.db.allocations)

-- Where no resource is held twice, a release leaves the resource free.
pub Released-free :
    (env : Env) (agg : Option ℕ) (r : ℕ) (s s' : Session Db)
    → Released env agg r s s'
    → Inv s.db
    → live_count r s'.db.allocations ≡ 0
Released-free env agg r s s' d v =
    let less = live_count-ended r (env.clock s.draws) d.row s.db.allocations d.was_live in
    let one = v.one_holder r in subst (λ xs. live_count r xs ≡ 0) (sym d.rows) (omega arith)

pub Released-Inv :
    (env : Env) (agg : Option ℕ) (r : ℕ) (s s' : Session Db)
    → Released env agg r s s'
    → Inv s.db
    → Inv s'.db
Released-Inv env agg r s s' d v = record {
  one_holder = λ q.
      let less = Released-live_count env agg r s s' d q in let one = v.one_holder q in omega arith;
  known = λ q e.
      let less = Released-live_count env agg r s s' d q in
      let none_live = v.known q (subst (λ hs. any (λ h. h.id == q) hs ≡ false) d.same_handles e) in
      omega arith;
}

module _ (env : Env) (agg : Option ℕ) (r : ℕ) (s : Session Db) where
  write_end_lem :
      (a : Allocation) {how : Ending (Unit {0})} {u : Session Db}
      → first_live r s.db.allocations ≡ some a
      → option_eq a.for_aggregate agg ≡ true
      → write_end env r a s ≡ (ok how, u)
      → (how ≡ commits (ok tt)) × Released env agg r s u
  write_end_lem a {how} {u} f o e =
      let next : ResourceHandle → M Db (Ending (Unit {0})) = λ h. utc_now env >>= λ now.
      update_allocation (ended_row a now) >>= λ _. pure (commits (ok tt)) in
      let (h, s₁, g, e₁) = >>=-eq-ok (expect (get_handle r)) next s e in
      let (id, same) = get_handle_lem r s (expect-eq-ok (get_handle r) s g) in
      let now = env.clock s₁.draws in
      let s₂ : Session Db = record s₁ { draws = s₁.draws + 1 } in
      let (done, s₃, w, e₂) =
        >>=-eq-ok (update_allocation (ended_row a now)) (λ _. pure (commits (ok tt))) s₂ e₁ in
      let wrote = update_allocation_lem (ended_row a now) s₂ w in
      let last : u ≡ s₃ = ground arith in
      (
        ground arith,
        record {
          row = a;
          was_live = f;
          of_caller = o;
          rows =
              ap (λ v. v.db.allocations) last
              ∙ ap (λ v. v.db.allocations) wrote
              ∙ ap (λ v. replace_row (ended_row a (env.clock v.draws)) v.db.allocations) same;
          draws = ap (λ v. v.draws) last ∙ ap (λ v. v.draws) wrote ∙ ap (λ v. v.draws + 1) same;
          same_handles =
              ap (λ v. v.db.resource_handles) last
              ∙ ap (λ v. v.db.resource_handles) wrote
              ∙ ap (λ v. v.db.resource_handles) same;
          same_aggregates =
              ap (λ v. v.db.aggregates) last
              ∙ ap (λ v. v.db.aggregates) wrote
              ∙ ap (λ v. v.db.aggregates) same;
        },
      )

  end_allocation_lem :
      (o : Option Allocation) {how : Ending (Unit {0})} {u : Session Db}
      → first_live r s.db.allocations ≡ o
      → end_allocation env agg r o s ≡ (ok how, u)
      → ((how ≡ rolls_back (err "no live allocation existed for the resource")) × (u ≡ s))
        ⊎ ((how ≡ commits (ok tt)) × Released env agg r s u)
  end_allocation_lem none f e = inl (ground arith)
  end_allocation_lem (some a) {how} {u} f e = elim (Bool-cases (option_eq a.for_aggregate agg)) [
    | inl o ↦ inr (write_end_lem a f o (ground arith))
    | inr o ↦ absurd (ground arith)
  ]

  -- A `deallocate_one` that succeeds has picked a live allocation of the resource, which is of the
  -- aggregate that the caller names, and has written back that row as ended and no row of another
  -- id.
  pub deallocate_one_releases :
      {s' : Session Db} → deallocate_one env agg r s ≡ (ok tt, s') → Released env agg r s s'
  unfolding deallocate_one find
  deallocate_one_releases {s'} e =
      let (how, u, b, c) = transaction-eq-ok (end_first env agg r) s e in
      elim (end_allocation_lem (first_live r s.db.allocations) refl b) [
        | inl (p, q) ↦ absurd (ground arith)
        | inr (p, q) ↦ subst (Released env agg r s) (ground arith) q
      ]

  -- A `deallocate_one` that does not succeed leaves the tables as they were.
  pub deallocate_one_fails :
      {x : Res (Unit {0})} {s' : Session Db}
      → deallocate_one env agg r s ≡ (x, s')
      → x ≢ ok tt
      → s'.db ≡ s.db
  unfolding deallocate_one find
  deallocate_one_fails {x} {s'} e not_ok = go (end_first env agg r s) refl e
    where
      go :
          (b : Res (Ending (Unit {0})) × Session Db)
          → end_first env agg r s ≡ b
          → close s b ≡ (x, s')
          → s'.db ≡ s.db
      go (ok how, u) b q = elim (end_allocation_lem (first_live r s.db.allocations) refl b) [
        | inl (p, same) ↦ ground arith
        | inr (p, done) ↦ absurd (not_ok (ground arith))
      ]
      go (err y, u) b q = ground arith
      go (panicked, u) b q = ground arith

  -- `deallocate_one` keeps the invariant, whatever it ends in.
  pub deallocate_one-Inv : Inv s.db → Inv (deallocate_one env agg r s).1.db
  deallocate_one-Inv v = go (deallocate_one env agg r s) refl
    where
      go : (b : Res (Unit {0}) × Session Db) → deallocate_one env agg r s ≡ b → Inv b.1.db
      go (ok u, s') q = Released-Inv env agg r s s' (deallocate_one_releases q) v
      go (err y, s') q = subst Inv (sym (deallocate_one_fails q (ground arith))) v
      go (panicked, s') q = subst Inv (sym (deallocate_one_fails q (ground arith))) v

  -- Where no resource is held twice, a `deallocate_one` that succeeds leaves the resource with no live
  -- allocation.
  deallocate_one_frees :
      {s' : Session Db}
      → Inv s.db
      → deallocate_one env agg r s ≡ (ok tt, s')
      → live_count r s'.db.allocations ≡ 0
  deallocate_one_frees {s'} v e = Released-free env agg r s s' (deallocate_one_releases e) v

  -- Where the ids of the allocations are distinct, a `deallocate_one` that succeeds leaves every other
  -- resource with as many live allocations as it had.
  deallocate_one_others :
      (q : ℕ) {s' : Session Db}
      → q ≢ r
      → Distinct (ids s.db.allocations)
      → deallocate_one env agg r s ≡ (ok tt, s')
      → live_count q s'.db.allocations ≡ live_count q s.db.allocations
  deallocate_one_others q n d e =
      let rel = deallocate_one_releases e in
      subst (λ xs. live_count q xs ≡ live_count q s.db.allocations) (sym rel.rows)
        (live_count-other r q (env.clock s.draws) rel.row s.db.allocations rel.was_live d n)

  -- Where no resource is held twice and the ids of the allocations are distinct, a `deallocate_one` that
  -- succeeds leaves the resource with no live allocation, and every other one with as many as it had.
  deallocate_one_counts :
      (q : ℕ) {s' : Session Db}
      → Inv s.db
      → Distinct (ids s.db.allocations)
      → deallocate_one env agg r s ≡ (ok tt, s')
      → live_count q s'.db.allocations ≡ (if q == r then 0 else live_count q s.db.allocations)
  deallocate_one_counts q {s'} v d e = elim (Bool-cases (q == r)) [
    | inl t ↦
        let gone = deallocate_one_frees v e in
        ground
          (arith, gone, ==_iff q r, ap (λ k. live_count k s'.db.allocations) {x = q} {y = r}, t)
    | inr f ↦
        let other : q ≢ r = λ h. ground (arith, f, ==_iff q r) in
        ground (arith, deallocate_one_others q other d e, f)
  ]

  -- Where no resource is held twice, none without a handle is held, and the ids of the allocations are
  -- distinct, a `deallocate_one` that succeeds has written the time that it drew as the end of the first live allocation of the resource,
  -- which is of the aggregate that the caller names, and has changed no other row, no handle and no
  -- aggregate. It leaves the resource with no live allocation, and every other one with as many as it
  -- had.
  pub deallocate_one_ends :
      (q : ℕ) {s' : Session Db}
      → Inv s.db
      → Distinct (ids s.db.allocations)
      → deallocate_one env agg r s ≡ (ok tt, s')
      → Released env agg r s s'
        × (live_count q s'.db.allocations ≡ (if q == r then 0 else live_count q s.db.allocations))
  deallocate_one_ends q v d e = (deallocate_one_releases e, deallocate_one_counts q v d e)
