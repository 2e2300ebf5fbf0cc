-- ===== src/Tascii/Runtime/Loading.antt =====
-- runtime.rs, `get_task`: what a missing task costs, since no row of the database is ever read back.
use laas_reflab.Prelude.{ℕ, ◌≡◌, refl, Option, none, some, arith, lookup}
use laas_reflab.Tascii.Runtime.{RuntimeTask, World, Env, load_task, get_task, from_row}

-- No task is ever loaded from the database, whatever its row holds: the reading asks for a column
-- that the table does not have.
load_task-none : (env : Env) (id : ℕ) → load_task env id ≡ none
unfolding load_task
load_task-none env id = go (env.stored_row id)
  where
    go : (row : Option RuntimeTask) → from_row row ≡ none
    go none = refl
    go (some t) = refl

abbrev pub with_world : World → Option RuntimeTask → Option (RuntimeTask × World)
with_world w none = none
with_world w (some t) = some (t, w)

-- A task is found exactly when it is in memory, and finding it changes nothing.
pub get_task-lookup :
    (env : Env) (w : World) (id : ℕ) → get_task env w id ≡ with_world w (lookup id w.all_tasks)
unfolding get_task
get_task-lookup env w id = ground (arith, load_task-none env id)
