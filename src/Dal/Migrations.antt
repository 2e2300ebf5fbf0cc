-- ===== src/Dal/Migrations.antt =====
-- src/dal/src/lib.rs: `Migration::apply` and `initialize`. A migration's name and an SQL statement are
-- numbers. Of the database there are the statements executed so far and the names of the rows of
-- `migration_records`; whether it accepts a statement is a parameter.
pub mod Order
pub mod Rounds
pub mod Firm
pub mod Initialize
pub mod Progress
mod Tests
use laas_reflab.Prelude.{
  ℕ, zero, suc, ◌+◌, Bool, true, false, not, ◌&&◌, Option, none, some, List, [], ◌∷◌, ◌++◌, ◌==◌,
  ltb, leb, if◌then◌else◌, is_empty, length,
}
use laas_reflab.Dal.Transaction.{
  Res, ok, err, M, ◌>>=◌, ◌>>◌, pure, fail, panics, expect, Ending, commits, rolls_back,
  transaction,
}

pub data Apply : Type 0 where
  sql : ℕ → Apply
  sql_multi : List ℕ → Apply
  noop : Apply
  -- a closure, which does not get the transaction
  operation : Apply

-- Without the description, which is only logged.
pub record Migration : Type 0 where
  pub unique_name : ℕ
  pub apply : Apply
  pub depends_on : List ℕ

-- `records` has the unique names of the rows of `migration_records`.
pub record Schema : Type 0 where
  pub executed : List ℕ
  pub records : List ℕ

-- Whether the database accepts a statement after those executed.
abbrev pub Accepts : Type 0
Accepts = List ℕ → ℕ → Bool

abbrev pub count : ℕ → List ℕ → ℕ
count name [] = 0
count name (x ∷ xs) = let more = count name xs in if x == name then suc more else more

pub applied_outer : ℕ → M Schema Bool
applied_outer name s =
    let found = count name s.db.records in if ltb 1 found then panics s else pure (leb 1 found) s

pub insert_record : ℕ → M Schema (Unit {0})
insert_record name s =
    pure tt (record s { db = record (s.db) { records = s.db.records ++ name ∷ [] } })

-- The loop of `initialize` over `depends_on`, which looks at every one of them.
pub can_apply : List ℕ → M Schema Bool
can_apply [] = pure true
can_apply (dep ∷ deps) = do found ← applied_outer dep; rest ← can_apply deps; pure (found && rest)

pub undone_precursors : List ℕ → M Schema (List ℕ)
undone_precursors [] = pure []
undone_precursors (mig ∷ rest) = do
  found ← applied_outer mig
  undone ← undone_precursors rest
  pure (if found then undone else mig ∷ undone)

-- What follows the loop of `initialize`.
abbrev pub conclude : Option (List Migration) → M Schema (Ending (Unit {0}))
conclude none = panics
conclude (some []) = pure (commits (ok tt))
conclude (some (m ∷ ms)) =
    pure (rolls_back (err "Could not apply migration, dependencies were unsatisfied"))

module _ (accepts : Accepts) where
  pub execute : ℕ → M Schema (Unit {0})
  execute statement s =
      if accepts s.db.executed statement
      then pure tt (record s { db = record (s.db) { executed = s.db.executed ++ statement ∷ [] } })
      else fail "the database refused the statement" s

  pub execute_all : List ℕ → M Schema (Unit {0})
  execute_all [] = pure tt
  execute_all (statement ∷ rest) = do expect (execute statement); execute_all rest

  -- The `match &self.apply`.
  pub perform : ℕ → Apply → M Schema (Unit {0})
  perform name (sql statement) = do expect (execute statement); insert_record name
  perform name (sql_multi statements) = do execute_all statements; insert_record name
  perform name noop = pure tt
  perform name operation = pure tt

  abbrev pub apply_unless : Migration → Bool → M Schema (Unit {0})
  apply_unless m true = pure tt
  apply_unless m false = perform m.unique_name m.apply

  abbrev pub apply_after : Migration → List ℕ → M Schema (Unit {0})
  apply_after m [] = applied_outer m.unique_name >>= apply_unless m
  apply_after m (mig ∷ rest) = panics

  pub apply : Migration → M Schema (Unit {0})
  apply m = undone_precursors m.depends_on >>= apply_after m

  -- One turn of the outer loop of `initialize`: whether it made progress, and what it threw back.
  -- `later` is the turn on the migrations after `m`.
  abbrev pub try_one :
      Migration → M Schema (Bool × List Migration) → Bool → M Schema (Bool × List Migration)
  try_one m later true = apply m >>= λ done. later >>= λ rest. pure (true, rest.1)
  try_one m later false = later >>= λ rest. pure (rest.0, m ∷ rest.1)

  pub round : List Migration → M Schema (Bool × List Migration)
  round [] = pure (false, [])
  round (m ∷ ms) = can_apply m.depends_on >>= try_one m (round ms)

  -- `while making_progress`, which gives `none` when the fuel runs out.
  pub while_progress : ℕ → List Migration → M Schema (Option (List Migration))
  while_progress zero ms = pure none
  while_progress (suc fuel) ms = do
    turn ← round ms
    if turn.0 then while_progress fuel turn.1 else pure (some turn.1)

  -- `initialize`, on the migrations that `all_migrations` collects.
  pub initialize : List Migration → M Schema (Unit {0})
  initialize all_migrations =
      transaction (while_progress (suc (length all_migrations)) all_migrations >>= conclude)
