-- ===== src/Dal/Migrations/Firm.antt =====
-- lib.rs, `initialize`: the loop gives no error. What the database refuses is unwrapped, and panics.
use laas_reflab.Prelude.{
  ℕ, zero, suc, ◌≢◌, arith, String, Bool, true, false, List, [], ◌∷◌, ltb, if◌then◌else◌,
  Bool-cases, inl, inr,
}
use laas_reflab.Dal.Transaction.{
  Res, ok, err, panicked, Session, M, and_then, ◌>>=◌, pure, expect, unwrap_result,
}
use laas_reflab.Dal.Migrations.{
  Apply, sql, sql_multi, noop, operation, Migration, Schema, Accepts, count, applied_outer,
  insert_record, can_apply, undone_precursors, execute, execute_all, perform, apply_unless,
  apply_after, apply, try_one, round, while_progress,
}

-- A call that returns no error.
abbrev pub Firm : {A : Type 0} → M Schema A → Type 0
Firm m = (s : Session Schema) (x : String) → (m s).0 ≢ err x

module _ {A B : Type 0} where
  Firm-bind :
      (m : M Schema A) (f : A → M Schema B) → Firm m → ((a : A) → Firm (f a)) → Firm (m >>= f)
  Firm-bind m f h k s x = go (m s) (h s x)
    where
      go : (r : Res A × Session Schema) → r.0 ≢ err x → (and_then f r).0 ≢ err x
      go (ok a, u) n = k a u x
      go (err y, u) n = λ e. n (ground arith)
      go (panicked, u) n = ground arith

module _ {A : Type 0} where
  Firm-expect : (m : M Schema A) → Firm (expect m)
  Firm-expect m s x = go (m s)
    where
      go : (r : Res A × Session Schema) → (unwrap_result r).0 ≢ err x
      go (ok a, u) = ground arith
      go (err y, u) = ground arith
      go (panicked, u) = ground arith

  Firm-pure : (a : A) → Firm (pure a)
  Firm-pure a s x = ground arith

applied_outer-Firm : (name : ℕ) → Firm (applied_outer name)
unfolding applied_outer
applied_outer-Firm name s x = elim (Bool-cases (ltb 1 (count name s.db.records))) [
  | inl y ↦ ground arith
  | inr n ↦ ground arith
]

can_apply-Firm : (deps : List ℕ) → Firm (can_apply deps)
unfolding can_apply
can_apply-Firm [] = Firm-pure true
can_apply-Firm (dep ∷ deps) =
    Firm-bind (applied_outer dep) _ (applied_outer-Firm dep)
      (λ found. Firm-bind (can_apply deps) _ (can_apply-Firm deps) (λ rest. Firm-pure _))

undone_precursors-Firm : (deps : List ℕ) → Firm (undone_precursors deps)
unfolding undone_precursors
undone_precursors-Firm [] = Firm-pure []
undone_precursors-Firm (mig ∷ rest) =
    Firm-bind (applied_outer mig) _ (applied_outer-Firm mig) (λ found.
      Firm-bind (undone_precursors rest) _ (undone_precursors-Firm rest) (λ undone. Firm-pure _))

insert_record-Firm : (name : ℕ) → Firm (insert_record name)
unfolding insert_record
insert_record-Firm name s x = ground arith

module _ (accepts : Accepts) where
  execute_all-Firm : (statements : List ℕ) → Firm (execute_all accepts statements)
  unfolding execute_all
  execute_all-Firm [] = Firm-pure tt
  execute_all-Firm (statement ∷ rest) =
      Firm-bind (expect (execute accepts statement)) _ (Firm-expect (execute accepts statement))
        (λ done. execute_all-Firm rest)

  perform-Firm : (name : ℕ) (a : Apply) → Firm (perform accepts name a)
  unfolding perform
  perform-Firm name (sql statement) =
      Firm-bind (expect (execute accepts statement)) _ (Firm-expect (execute accepts statement))
        (λ done. insert_record-Firm name)
  perform-Firm name (sql_multi statements) =
      Firm-bind (execute_all accepts statements) _ (execute_all-Firm statements)
        (λ done. insert_record-Firm name)
  perform-Firm name noop = Firm-pure tt
  perform-Firm name operation = Firm-pure tt

  apply_unless-Firm : (m : Migration) (b : Bool) → Firm (apply_unless accepts m b)
  apply_unless-Firm m true = Firm-pure tt
  apply_unless-Firm m false = perform-Firm m.unique_name m.apply

  apply_after-Firm : (m : Migration) (undone : List ℕ) → Firm (apply_after accepts m undone)
  apply_after-Firm m [] =
      Firm-bind (applied_outer m.unique_name) _ (applied_outer-Firm m.unique_name)
        (apply_unless-Firm m)
  apply_after-Firm m (mig ∷ rest) = λ s x. ground arith

  apply-Firm : (m : Migration) → Firm (apply accepts m)
  unfolding apply
  apply-Firm m =
      Firm-bind (undone_precursors m.depends_on) _ (undone_precursors-Firm m.depends_on)
        (apply_after-Firm m)

  try_one-Firm :
      (m : Migration) (later : M Schema (Bool × List Migration)) (b : Bool)
      → Firm later
      → Firm (try_one accepts m later b)
  try_one-Firm m later true h =
      Firm-bind (apply accepts m) _ (apply-Firm m)
        (λ done. Firm-bind later _ h (λ rest. Firm-pure _))
  try_one-Firm m later false h = Firm-bind later _ h (λ rest. Firm-pure _)

  round-Firm : (ms : List Migration) → Firm (round accepts ms)
  unfolding round
  round-Firm [] = Firm-pure (false, [])
  round-Firm (m ∷ ms) =
      Firm-bind (can_apply m.depends_on) _ (can_apply-Firm m.depends_on)
        (λ b. try_one-Firm m (round accepts ms) b (round-Firm ms))

  if-Firm : {A : Type 0} (b : Bool) (m n : M Schema A) → Firm m → Firm n → Firm (if b then m else n)
  if-Firm true m n h k = h
  if-Firm false m n h k = k

  pub while_progress-Firm : (fuel : ℕ) (ms : List Migration) → Firm (while_progress accepts fuel ms)
  unfolding while_progress
  while_progress-Firm zero ms = Firm-pure _
  while_progress-Firm (suc fuel) ms =
      Firm-bind (round accepts ms) _ (round-Firm ms)
        (λ turn. if-Firm turn.0 _ _ (while_progress-Firm fuel turn.1) (Firm-pure _))
