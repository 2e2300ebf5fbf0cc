-- ===== src/Dal/Migrations/Tests.antt =====
-- Runs of `initialize` on three migrations: in the wrong order, with one that depends on a marker.
use laas_reflab.Prelude.{ℕ, Bool, ◌≡◌, ◌≢◌, ◌⊎◌, refl, arith, true, none, List, [], ◌∷◌, ◌++◌}
use laas_reflab.Dal.Transaction.{ok, err, Session}
use laas_reflab.Dal.Migrations.{
  sql, sql_multi, noop, Migration, Schema, while_progress, applied_outer, can_apply,
  undone_precursors, insert_record, execute, execute_all, perform, apply, round, initialize,
}
use laas_reflab.Dal.Migrations.Rounds.{Ordered, settled, AllTrue}
use laas_reflab.Dal.Migrations.Progress.{initialize_ends}
use laas_reflab.Dal.Migrations.Initialize.{
  while_progress_fuel, initialize_applies, initialize_stuck, Halted,
}

abbrev any : List ℕ → ℕ → Bool
any done statement = true

abbrev create_table : Migration
create_table = record { unique_name = 1; apply = sql 10; depends_on = [] }

abbrev add_index : Migration
add_index = record { unique_name = 2; apply = sql_multi (20 ∷ 21 ∷ []); depends_on = 1 ∷ [] }

abbrev marker : Migration
marker = record { unique_name = 3; apply = noop; depends_on = [] }

abbrev after_marker : Migration
after_marker = record { unique_name = 4; apply = sql 40; depends_on = 3 ∷ [] }

abbrev fresh : Session Schema
fresh = record { db = record { executed = []; records = [] }; draws = 0 }

abbrev indexed : Session Schema
indexed = record { db = record { executed = 10 ∷ 20 ∷ 21 ∷ []; records = 1 ∷ 2 ∷ [] }; draws = 0 }

abbrev created : Session Schema
created = record { db = record { executed = 10 ∷ []; records = 1 ∷ [] }; draws = 0 }

test_initialize : initialize any (add_index ∷ create_table ∷ []) fresh ≡ (ok tt, indexed)
unfolding initialize while_progress round apply can_apply undone_precursors applied_outer perform
    execute execute_all insert_record
test_initialize = refl

while_progress_fuel_example :
    (while_progress any 4 (add_index ∷ create_table ∷ []) fresh
      ≡ while_progress any 3 (add_index ∷ create_table ∷ []) fresh)
    × ((s' : Session Schema)
        → while_progress any 3 (add_index ∷ create_table ∷ []) fresh ≢ (ok none, s'))
while_progress_fuel_example =
    while_progress_fuel any 3 (add_index ∷ create_table ∷ []) fresh (omega arith)

initialize_applies_example :
    AllTrue (settled (1 ∷ 2 ∷ [])) (add_index ∷ create_table ∷ [])
    × ((new : List ℕ) × ((1 ∷ 2 ∷ []) ≡ [] ++ new) × Ordered (add_index ∷ create_table ∷ []) [] new)
initialize_applies_example =
    initialize_applies any (add_index ∷ create_table ∷ []) fresh test_initialize

-- A migration that depends on a marker is never applied, since a marker is not recorded.
test_stuck :
    initialize any (after_marker ∷ marker ∷ create_table ∷ []) fresh
    ≡ (err "Could not apply migration, dependencies were unsatisfied", created)
unfolding initialize while_progress round apply can_apply undone_precursors applied_outer perform
    execute execute_all insert_record
test_stuck = refl

initialize_stuck_example :
    Halted any
      (after_marker ∷ marker ∷ create_table ∷ [])
      fresh
      "Could not apply migration, dependencies were unsatisfied"
      created
initialize_stuck_example =
    initialize_stuck any (after_marker ∷ marker ∷ create_table ∷ []) fresh test_stuck

initialize_ends_example :
    (s' : Session Schema) × ((initialize any (after_marker ∷ marker ∷ create_table ∷ []) fresh
        ≡ (ok tt, s'))
      ⊎ (initialize any (after_marker ∷ marker ∷ create_table ∷ []) fresh
          ≡ (err "Could not apply migration, dependencies were unsatisfied", s')))
initialize_ends_example =
    initialize_ends any (λ done x. refl) (after_marker ∷ marker ∷ create_table ∷ []) fresh
      (λ n. omega arith)
