-- ===== src/Dal/Migrations/Order.antt =====
-- lib.rs, `can_apply` and `Migration::apply`: what one migration needs and what it leaves.
use laas_reflab.Prelude.{
  ℕ, ◌≡◌, refl, ap, subst, ◌∙◌, arith, Bool, true, false, ◌&&◌, List, [], ◌∷◌, ◌++◌, leb,
  if◌then◌else◌, is_empty, contains, append-[],
}
use laas_reflab.Dal.Transaction.{ok, Session, >>=-eq-ok, pure, expect}
use laas_reflab.Dal.Migrations.{
  Apply, sql, sql_multi, noop, operation, Migration, Schema, Accepts, count, applied_outer,
  insert_record, can_apply, undone_precursors, execute, execute_all, perform, apply_unless,
  apply_after, apply,
}

-- All the names are recorded.
abbrev pub all_in : List ℕ → List ℕ → Bool
all_in [] records = true
all_in (dep ∷ deps) records = contains dep records && all_in deps records

pub count-contains : (name : ℕ) (xs : List ℕ) → leb 1 (count name xs) ≡ contains name xs
count-contains name [] = refl
count-contains name (x ∷ xs) = ground (arith, count-contains name xs)

pub applied_lem :
    (name : ℕ) (s : Session Schema) {b : Bool} {s' : Session Schema}
    → applied_outer name s ≡ (ok b, s')
    → (s' ≡ s) × (b ≡ contains name s.db.records)
unfolding applied_outer
applied_lem name s e = ground (arith, count-contains name s.db.records)

pub can_apply_lem :
    (deps : List ℕ) (s : Session Schema) {b : Bool} {s' : Session Schema}
    → can_apply deps s ≡ (ok b, s')
    → (s' ≡ s) × (b ≡ all_in deps s.db.records)
unfolding can_apply
can_apply_lem [] s e = ground arith
can_apply_lem (dep ∷ deps) s {b} {s'} e =
    let (found, s₁, a, e₁) = >>=-eq-ok (applied_outer dep) _ s e in
    let (rest, s₂, c, e₂) = >>=-eq-ok (can_apply deps) (λ rest. pure (found && rest)) s₁ e₁ in
    let (same₁, f) = applied_lem dep s a in let (same₂, r) = can_apply_lem deps s₁ c in ground arith

undone_lem :
    (deps : List ℕ) (s : Session Schema) {s' : Session Schema} {undone : List ℕ}
    → undone_precursors deps s ≡ (ok undone, s')
    → (s' ≡ s) × (is_empty undone ≡ all_in deps s.db.records)
unfolding undone_precursors
undone_lem [] s e = ground arith
undone_lem (dep ∷ deps) s {s'} {undone} e =
    let (found, s₁, a, e₁) = >>=-eq-ok (applied_outer dep) _ s e in
    let (rest, s₂, c, e₂) =
      >>=-eq-ok (undone_precursors deps) (λ u. pure (if found then u else dep ∷ u)) s₁ e₁ in
    let (same₁, f) = applied_lem dep s a in let (same₂, r) = undone_lem deps s₁ c in ground arith

-- Whether applying the migration makes a row of `migration_records`.
abbrev pub is_recorded : Apply → Bool
is_recorded (sql statement) = true
is_recorded (sql_multi statements) = true
is_recorded noop = false
is_recorded operation = false

-- The rows that the application of a migration adds.
abbrev pub added : Migration → List ℕ → List ℕ
added m records =
    if contains m.unique_name records
    then []
    else if is_recorded m.apply
    then m.unique_name ∷ []
    else []

module _ (accepts : Accepts) where
  execute_lem :
      (statement : ℕ) (s : Session Schema) {s' : Session Schema}
      → expect (execute accepts statement) s ≡ (ok tt, s')
      → s'.db.records ≡ s.db.records
  unfolding execute
  execute_lem statement s e = ground arith

  execute_all_lem :
      (statements : List ℕ) (s : Session Schema) {s' : Session Schema}
      → execute_all accepts statements s ≡ (ok tt, s')
      → s'.db.records ≡ s.db.records
  unfolding execute_all
  execute_all_lem [] s e = ground arith
  execute_all_lem (x ∷ xs) s e =
      let (done, s₁, a, e₁) =
        >>=-eq-ok (expect (execute accepts x)) (λ _. execute_all accepts xs) s e in
      execute_all_lem xs s₁ e₁ ∙ execute_lem x s a

  insert_lem :
      (name : ℕ) (s : Session Schema) {s' : Session Schema}
      → insert_record name s ≡ (ok tt, s')
      → s'.db.records ≡ s.db.records ++ name ∷ []
  unfolding insert_record
  insert_lem name s e = ground arith

  perform_lem :
      (name : ℕ) (a : Apply) (s : Session Schema) {s' : Session Schema}
      → perform accepts name a s ≡ (ok tt, s')
      → s'.db.records ≡ s.db.records ++ (if is_recorded a then name ∷ [] else [])
  unfolding perform
  perform_lem name (sql x) s e =
      let (done, s₁, a, e₁) =
        >>=-eq-ok (expect (execute accepts x)) (λ _. insert_record name) s e in
      insert_lem name s₁ e₁ ∙ ap (λ r. r ++ name ∷ []) (execute_lem x s a)
  perform_lem name (sql_multi xs) s e =
      let (done, s₁, a, e₁) = >>=-eq-ok (execute_all accepts xs) (λ _. insert_record name) s e in
      insert_lem name s₁ e₁ ∙ ap (λ r. r ++ name ∷ []) (execute_all_lem xs s a)
  perform_lem name noop s e = ground (arith, append-[] s.db.records)
  perform_lem name operation s e = ground (arith, append-[] s.db.records)

  apply_unless_lem :
      (m : Migration) (b : Bool) (s : Session Schema) {s' : Session Schema}
      → b ≡ contains m.unique_name s.db.records
      → apply_unless accepts m b s ≡ (ok tt, s')
      → s'.db.records ≡ s.db.records ++ added m s.db.records
  apply_unless_lem m true s q e = ground (arith, append-[] s.db.records)
  apply_unless_lem m false s q e = ground (arith, perform_lem m.unique_name m.apply s e)

  apply_after_lem :
      (m : Migration) (undone : List ℕ) (s : Session Schema) {s' : Session Schema}
      → apply_after accepts m undone s ≡ (ok tt, s')
      → (is_empty undone ≡ true) × (s'.db.records ≡ s.db.records ++ added m s.db.records)
  apply_after_lem m [] s {s'} e =
      let (b, s₁, a, e₁) = >>=-eq-ok (applied_outer m.unique_name) (apply_unless accepts m) s e in
      let (same, q) = applied_lem m.unique_name s a in
      let at_s : apply_unless accepts m b s ≡ (ok tt, s') =
        subst (λ u. apply_unless accepts m b u ≡ (ok tt, s')) same e₁ in
      (refl, apply_unless_lem m b s q at_s)
  apply_after_lem m (x ∷ xs) s e = absurd (ground arith)

  -- An `apply` that does not panic had all that the migration depends on, and has recorded it unless it
  -- was recorded, or its kind is never recorded.
  pub apply_lem :
      (m : Migration) (s : Session Schema) {s' : Session Schema}
      → apply accepts m s ≡ (ok tt, s')
      → (all_in m.depends_on s.db.records ≡ true)
        × (s'.db.records ≡ s.db.records ++ added m s.db.records)
  unfolding apply
  apply_lem m s e =
      let (undone, s₁, a, e₁) =
        >>=-eq-ok (undone_precursors m.depends_on) (apply_after accepts m) s e in
      let (same, q) = undone_lem m.depends_on s a in
      let (empty, r) = apply_after_lem m undone s₁ e₁ in ground arith
