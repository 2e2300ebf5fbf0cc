-- ===== src/Deploy/Freeing/Ready.antt =====
-- allocation.rs: when the database lets an aggregate give a resource back, and what keeps it so while other
-- resources are given back.
use laas_reflab.Prelude.{
  ℕ, ◌≡◌, ◌≤◌, ◌≢◌, refl, sym, ap, subst, ◌∙◌, arith, Bool, true, false, not, ◌&&◌, Option, none,
  some, List, [], ◌∷◌, ◌==◌, ==_iff, any, contains, select, Distinct,
}
use laas_reflab.Dal.Transaction.{Session}
use laas_reflab.Allocation.Db.{
  Allocation, Db, Env, option_eq, ended_at, row_allowed, known_aggregate, replace_row,
}
use laas_reflab.Allocation.Handle.Found.{handle_known}
use laas_reflab.Allocation.Handle.Releases.{
  first_live, ended_row, ids, Released, replace_row-absent, contains-first_live,
}
use laas_reflab.Allocation.Handle.Progress.{others}

-- An allocation of the resource that ended at the given time.
abbrev pub ended_then : ℕ → Option ℕ → Allocation → Bool
ended_then q t a = (a.for_resource == q) && ended_at t a

-- The aggregate holds the resource, both are known, and no earlier allocation of the resource ended at a
-- time that is still to be drawn.
pub record Ready (env : Env) (agg q : ℕ) (s : Session Db) : Type 0 where
  pub row : Allocation
  pub live : first_live q s.db.allocations ≡ some row
  pub held : option_eq row.for_aggregate (some agg) ≡ true
  pub known : handle_known q s.db ≡ true
  pub in_use : contains agg s.db.aggregates ≡ true
  pub fresh :
      (n : ℕ) → s.draws ≤ n → any (ended_then q (some (env.clock n))) s.db.allocations ≡ false

-- It stays so while only times are drawn.
pub Ready-later :
    (env : Env) (agg q : ℕ) (s s' : Session Db)
    → s'.db ≡ s.db
    → s.draws ≤ s'.draws
    → Ready env agg q s
    → Ready env agg q s'
Ready-later env agg q s s' same le ready = record {
  row = ready.row;
  live = ap (λ db. first_live q db.allocations) same ∙ ready.live;
  held = ready.held;
  known = ap (handle_known q) same ∙ ready.known;
  in_use = ap (λ db. contains agg db.aggregates) same ∙ ready.in_use;
  fresh = λ n later.
      ap (λ db. any (ended_then q (some (env.clock n))) db.allocations) same
      ∙ ready.fresh n (omega arith);
}

first_live-resource :
    (q : ℕ) (a : Allocation) (xs : List Allocation) → first_live q xs ≡ some a → a.for_resource ≡ q
first_live-resource q a [] e = absurd (ground arith)
first_live-resource q a (x ∷ xs) e =
    ground (arith, first_live-resource q a xs, ==_iff x.for_resource q)

any-select :
    (p f : Allocation → Bool) (xs : List Allocation)
    → any p xs ≡ false
    → any p (select f xs) ≡ false
any-select p f [] e = refl
any-select p f (x ∷ xs) e = ground (arith, any-select p f xs)

known_aggregate-some :
    (db : Db) (agg : ℕ) (o : Option ℕ)
    → option_eq o (some agg) ≡ true
    → contains agg db.aggregates ≡ true
    → known_aggregate db o ≡ true
known_aggregate-some db agg none e c = absurd (ground arith)
known_aggregate-some db agg (some a) e c =
    subst (λ k. contains k db.aggregates ≡ true) (sym ((==_iff a agg).0 e)) c

module _ (env : Env) (agg q : ℕ) where
  pub Ready-row_allowed :
      (s : Session Db) (r : Ready env agg q s)
      → row_allowed s.db (others env (some agg) q s r.row) (ended_row r.row (env.clock s.draws))
        ≡ true
  Ready-row_allowed s r =
      let same = first_live-resource q r.row s.db.allocations r.live in
      let known : handle_known r.row.for_resource s.db ≡ true =
        subst (λ k. handle_known k s.db ≡ true) (sym same) r.known in
      let agg_known = known_aggregate-some s.db agg r.row.for_aggregate r.held r.in_use in
      let fresh =
        any-select (ended_then q (some (env.clock s.draws))) (λ b. not (b.id == r.row.id))
          s.db.allocations (r.fresh s.draws (omega arith)) in
      let fresh' : any (ended_then r.row.for_resource (some (env.clock s.draws)))
            (others env (some agg) q s r.row)
          ≡ false =
        subst
          (λ k.
            any (ended_then k (some (env.clock s.draws))) (others env (some agg) q s r.row) ≡ false)
          (sym same) fresh in
      ground arith

first_live-other :
    (r q t : ℕ) (a : Allocation) (xs : List Allocation)
    → first_live r xs ≡ some a
    → Distinct (ids xs)
    → q ≢ r
    → first_live q (replace_row (ended_row a t) xs) ≡ first_live q xs
first_live-other r q t a [] e d n = refl
first_live-other r q t a (x ∷ xs) e d n = ground (
  arith,
  first_live-other r q t a xs,
  replace_row-absent a (ended_row a t) xs,
  contains-first_live r a xs,
)

any-replace_row :
    (q t : ℕ) (o : Option ℕ) (a : Allocation) (xs : List Allocation)
    → a.for_resource ≢ q
    → any (ended_then q o) xs ≡ false
    → any (ended_then q o) (replace_row (ended_row a t) xs) ≡ false
any-replace_row q t o a [] n e = refl
any-replace_row q t o a (x ∷ xs) n e =
    ground (arith, any-replace_row q t o a xs, ==_iff a.for_resource q)

ids-replace_row :
    (t : ℕ) (a : Allocation) (xs : List Allocation) → ids (replace_row (ended_row a t) xs) ≡ ids xs
ids-replace_row t a [] = refl
ids-replace_row t a (x ∷ xs) = ground (arith, ids-replace_row t a xs, ==_iff x.id a.id)

pub Released-Distinct :
    (env : Env) (agg : Option ℕ) (r : ℕ) (s s' : Session Db)
    → Released env agg r s s'
    → Distinct (ids s.db.allocations)
    → Distinct (ids s'.db.allocations)
Released-Distinct env agg r s s' d h =
    subst Distinct
      (sym (ap ids d.rows ∙ ids-replace_row (env.clock s.draws) d.row s.db.allocations)) h

-- To give another resource back leaves a resource ready.
pub Released-Ready :
    (env : Env) (agg q : ℕ) (from : Option ℕ) (r : ℕ) (s s' : Session Db)
    → Released env from r s s'
    → Distinct (ids s.db.allocations)
    → q ≢ r
    → Ready env agg q s
    → Ready env agg q s'
Released-Ready env agg q from r s s' d h n ready = record {
  row = ready.row;
  live =
      ap (first_live q) d.rows
      ∙ first_live-other r q (env.clock s.draws) d.row s.db.allocations d.was_live h n
      ∙ ready.live;
  held = ready.held;
  known = ap (λ hs. any (λ g. g.id == q) hs) d.same_handles ∙ ready.known;
  in_use = ap (contains agg) d.same_aggregates ∙ ready.in_use;
  fresh = λ k later.
      let before : s.draws ≤ k = ground (arith, d.draws) in
      let same = first_live-resource r d.row s.db.allocations d.was_live in
      ap (any (ended_then q (some (env.clock k)))) d.rows
      ∙ any-replace_row q (env.clock s.draws) (some (env.clock k)) d.row s.db.allocations
          (λ p. n (sym p ∙ same)) (ready.fresh k before);
}
