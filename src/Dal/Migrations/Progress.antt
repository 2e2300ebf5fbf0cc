-- ===== src/Dal/Migrations/Progress.antt =====
-- lib.rs, `Migration::apply` and `initialize`, on a database that accepts every statement.
use laas_reflab.Prelude.{
  ℕ, zero, suc, ◌+◌, ◌≤◌, ◌<◌, ◌≡◌, refl, sym, ap, subst, ◌∙◌, ◌⊎◌, inl, inr, arith, Bool, true,
  false, Option, some, List, [], ◌∷◌, ◌++◌, ◌==◌, ==_iff, if◌then◌else◌, length, contains,
  append-[], Bool-cases,
}
use laas_reflab.Dal.Transaction.{ok, err, Session, M, ◌>>=◌, and_then, pure, close, expect}
use laas_reflab.Dal.Migrations.{
  Apply, sql, sql_multi, noop, operation, Migration, Schema, Accepts, count, applied_outer,
  insert_record, can_apply, undone_precursors, execute, execute_all, perform, apply_unless,
  apply_after, apply, try_one, round, while_progress, conclude, initialize,
}
use laas_reflab.Dal.Migrations.Rounds.{round_lem}
use laas_reflab.Dal.Migrations.Order.{all_in, is_recorded, added, count-contains}

-- No name is recorded twice.
abbrev pub Single : List ℕ → Type 0
Single records = (n : ℕ) → count n records ≤ 1

count-append :
    (n name : ℕ) (xs : List ℕ)
    → count n (xs ++ name ∷ []) ≡ count n xs + (if name == n then 1 else 0)
count-append n name [] = ground arith
count-append n name (x ∷ xs) = ground (arith, count-append n name xs)

Single-append :
    (name : ℕ) (xs : List ℕ) → Single xs → contains name xs ≡ false → Single (xs ++ name ∷ [])
Single-append name xs h c = λ n. ground (
  arith,
  h n,
  count-append n name xs,
  ==_iff name n,
  count-contains name xs,
  ap (λ k. count k xs) {x = name} {y = n},
)

applied_runs :
    (name : ℕ) (s : Session Schema)
    → Single s.db.records
    → applied_outer name s ≡ (ok (contains name s.db.records), s)
unfolding applied_outer
applied_runs name s h = ground (arith, h name, count-contains name s.db.records)

can_apply_runs :
    (deps : List ℕ) (s : Session Schema)
    → Single s.db.records
    → can_apply deps s ≡ (ok (all_in deps s.db.records), s)
unfolding can_apply
can_apply_runs [] s h = refl
can_apply_runs (dep ∷ deps) s h = ground (arith, applied_runs dep s h, can_apply_runs deps s h)

undone_runs :
    (deps : List ℕ) (s : Session Schema)
    → Single s.db.records
    → all_in deps s.db.records ≡ true
    → undone_precursors deps s ≡ (ok [], s)
unfolding undone_precursors
undone_runs [] s h a = refl
undone_runs (dep ∷ deps) s h a =
    ground (arith, applied_runs dep s h, undone_runs deps s h (ground arith), a)

module _ (accepts : Accepts) (willing : (done : List ℕ) (x : ℕ) → accepts done x ≡ true) where
  -- What is left after a call that runs through.
  record Runs (m : M Schema (Unit {0})) (s : Session Schema) (records : List ℕ) : Type 0 where
    after : Session Schema
    runs : m s ≡ (ok tt, after)
    left : after.db.records ≡ records

  execute-Runs : (x : ℕ) (s : Session Schema) → Runs (expect (execute accepts x)) s s.db.records
  unfolding execute
  execute-Runs x s = record {
    after = record s { db = record (s.db) { executed = s.db.executed ++ x ∷ [] } };
    runs = ground (arith, willing s.db.executed x);
    left = refl;
  }

  execute_all-Runs :
      (xs : List ℕ) (s : Session Schema) → Runs (execute_all accepts xs) s s.db.records
  unfolding execute_all
  execute_all-Runs [] s = record { after = s; runs = refl; left = refl }
  execute_all-Runs (x ∷ xs) s =
      let first = execute-Runs x s in
      let rest = execute_all-Runs xs first.after in
      record {
        after = rest.after;
        runs = ap (and_then (λ _. execute_all accepts xs)) first.runs ∙ rest.runs;
        left = rest.left ∙ first.left;
      }

  insert_record-Runs :
      (name : ℕ) (s : Session Schema) → Runs (insert_record name) s (s.db.records ++ name ∷ [])
  unfolding insert_record
  insert_record-Runs name s = record {
    after = record s { db = record (s.db) { records = s.db.records ++ name ∷ [] } };
    runs = refl;
    left = refl;
  }

  insert_record-Runs_after :
      (m : M Schema (Unit {0})) (name : ℕ) (s : Session Schema)
      → Runs m s s.db.records
      → Runs (m >>= λ _. insert_record name) s (s.db.records ++ name ∷ [])
  insert_record-Runs_after m name s first =
      let rest = insert_record-Runs name first.after in
      record {
        after = rest.after;
        runs = ap (and_then (λ _. insert_record name)) first.runs ∙ rest.runs;
        left = rest.left ∙ ap (λ xs. xs ++ name ∷ []) first.left;
      }

  perform-Runs :
      (name : ℕ) (a : Apply) (s : Session Schema)
      → Runs (perform accepts name a) s (s.db.records ++ (if is_recorded a then name ∷ [] else []))
  unfolding perform
  perform-Runs name (sql x) s =
      insert_record-Runs_after (expect (execute accepts x)) name s (execute-Runs x s)
  perform-Runs name (sql_multi xs) s =
      insert_record-Runs_after (execute_all accepts xs) name s (execute_all-Runs xs s)
  perform-Runs name noop s = record { after = s; runs = refl; left = sym (append-[] s.db.records) }
  perform-Runs name operation s = record {
    after = s;
    runs = refl;
    left = sym (append-[] s.db.records);
  }

  apply-Runs :
      (m : Migration) (s : Session Schema)
      → Single s.db.records
      → all_in m.depends_on s.db.records ≡ true
      → Runs (apply accepts m) s (s.db.records ++ added m s.db.records)
  unfolding apply
  apply-Runs m s h a = go (Bool-cases (contains m.unique_name s.db.records))
    where
      start : apply accepts m s ≡ apply_unless accepts m (contains m.unique_name s.db.records) s
      start =
          ap (and_then (apply_after accepts m)) (undone_runs m.depends_on s h a)
          ∙ ap (and_then (apply_unless accepts m)) (applied_runs m.unique_name s h)

      go :
          (contains m.unique_name s.db.records ≡ true)
            ⊎ (contains m.unique_name s.db.records ≡ false)
          → Runs (apply accepts m) s (s.db.records ++ added m s.db.records)
      go (inl t) = record {
        after = s;
        runs = start ∙ ap (λ b. apply_unless accepts m b s) t;
        left =
            sym (append-[] s.db.records)
            ∙ ap
                (λ b.
                  s.db.records
                  ++ (if b then [] else if is_recorded m.apply then m.unique_name ∷ [] else []))
                (sym t);
      }
      go (inr f) =
          let p = perform-Runs m.unique_name m.apply s in
          record {
            after = p.after;
            runs = start ∙ ap (λ b. apply_unless accepts m b s) f ∙ p.runs;
            left =
                p.left
                ∙ ap
                    (λ b.
                      s.db.records
                      ++ (if b then [] else if is_recorded m.apply then m.unique_name ∷ [] else []))
                    (sym f);
          }

  Single-added : (m : Migration) (xs : List ℕ) → Single xs → Single (xs ++ added m xs)
  Single-added m xs h = go (Bool-cases (contains m.unique_name xs)) (is_recorded m.apply)
    where
      go :
          (contains m.unique_name xs ≡ true) ⊎ (contains m.unique_name xs ≡ false)
          → (c : Bool)
          → Single (
              xs
              ++ (if contains m.unique_name xs then [] else if c then m.unique_name ∷ [] else []))
      go (inl t) c =
          subst (λ b. Single (xs ++ (if b then [] else if c then m.unique_name ∷ [] else [])))
            (sym t) (subst Single (sym (append-[] xs)) h)
      go (inr f) true =
          subst (λ b. Single (xs ++ (if b then [] else m.unique_name ∷ []))) (sym f)
            (Single-append m.unique_name xs h f)
      go (inr f) false =
          subst (λ b. Single (xs ++ (if b then [] else []))) (sym f)
            (subst Single (sym (append-[] xs)) h)

  -- A turn of the loop runs through.
  round_runs :
      (ms : List Migration) (s : Session Schema)
      → Single s.db.records
      → (turn : Bool × List Migration) × (s' : Session Schema) × (round accepts ms s
          ≡ (ok turn, s'))
        × Single s'.db.records
  unfolding round
  round_runs [] s h = ((false, []), s, refl, h)
  round_runs (m ∷ ms) s h = elim (Bool-cases (all_in m.depends_on s.db.records)) [
    | inl t ↦
        let r = apply-Runs m s h t in
        let again : Single r.after.db.records =
          subst Single (sym r.left) (Single-added m s.db.records h) in
        let (turn, s', e, k) = round_runs ms r.after again in
        (
          (true, turn.1),
          s',
          ap (and_then (try_one accepts m (round accepts ms))) (can_apply_runs m.depends_on s h)
              ∙ ap (λ b. try_one accepts m (round accepts ms) b s) t
              ∙ ap (and_then (λ _. round accepts ms >>= λ rest. pure (true, rest.1))) r.runs
              ∙ ap (and_then (λ rest. pure (true, rest.1))) e,
          k,
        )
    | inr f ↦
        let (turn, s', e, k) = round_runs ms s h in
        (
          (turn.0, m ∷ turn.1),
          s',
          ap (and_then (try_one accepts m (round accepts ms))) (can_apply_runs m.depends_on s h)
              ∙ ap (λ b. try_one accepts m (round accepts ms) b s) f
              ∙ ap (and_then (λ rest. pure (rest.0, m ∷ rest.1))) e,
          k,
        )
  ]

  while_runs :
      (fuel : ℕ) (ms : List Migration) (s : Session Schema)
      → length ms < fuel
      → Single s.db.records
      → (left : List Migration) × (s' : Session Schema) × (while_progress accepts fuel ms s
          ≡ (ok (some left), s'))
  unfolding while_progress
  while_runs zero ms s short h = absurd (omega arith)
  while_runs (suc fuel) ms s short h =
      let (turn, s₁, e, k) = round_runs ms s h in
      let next : Bool × List Migration → M Schema (Option (List Migration)) =
        λ turn. if turn.0 then while_progress accepts fuel turn.1 else pure (some turn.1) in
      let start : while_progress accepts (suc fuel) ms s ≡ next turn s₁ = ap (and_then next) e in
      elim (Bool-cases turn.0) [
        | inl t ↦
            let fewer = (round_lem accepts ms s e).shorter t in
            let (left, s', w) = while_runs fuel turn.1 s₁ (omega arith) k in
            (
              left,
              s',
              start
                  ∙ ap
                      (λ b.
                        (if b then while_progress accepts fuel turn.1 else pure (some turn.1)) s₁)
                      t
                  ∙ w,
            )
        | inr f ↦ (
          turn.1,
          s₁,
          start
              ∙ ap (λ b. (if b then while_progress accepts fuel turn.1 else pure (some turn.1)) s₁)
                  f,
        )
      ]

  -- On a database that accepts every statement and in which no name is recorded twice, `initialize` does not
  -- panic: it succeeds, or returns the error that migrations are left over.
  pub initialize_ends :
      (ms : List Migration) (s : Session Schema)
      → Single s.db.records
      → (s' : Session Schema) × ((initialize accepts ms s ≡ (ok tt, s'))
          ⊎ (initialize accepts ms s
              ≡ (err "Could not apply migration, dependencies were unsatisfied", s')))
  unfolding initialize
  initialize_ends ms s h =
      let (left, s', w) = while_runs (suc (length ms)) ms s (omega arith) h in
      go left s' (ap (close s) (ap (and_then conclude) w))
    where
      go :
          (left : List Migration) (s' : Session Schema)
          → initialize accepts ms s ≡ close s (conclude (some left) s')
          → (s' : Session Schema) × ((initialize accepts ms s ≡ (ok tt, s'))
              ⊎ (initialize accepts ms s
                  ≡ (err "Could not apply migration, dependencies were unsatisfied", s')))
      go [] s' e = (s', inl e)
      go (m ∷ rest) s' e = (s', inr e)
