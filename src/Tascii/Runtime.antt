-- ===== src/Tascii/Runtime.antt =====
-- src/tascii/src/runtime.rs and task_runtime.rs: the tasks in memory, the targets and the inbox.
-- Sets are lists; the channel `tx`/`rx` is the list `inbox`, oldest message first. The database, the
-- ids and the clone of a task's output are code of others, and stand in `Env`.
pub mod Loading
use text.Mathlib.Text.{◌==◌ as str_eq}
use laas_reflab.Prelude.{
  ℕ, String, Bool, true, false, Option, none, some, List, [], ◌∷◌, ◌++◌, if◌then◌else◌, insert,
  remove, lookup, put, any,
}
use laas_reflab.Tascii.Message.{TaskMessage}
use laas_reflab.Tascii.OneShot.{
  Cell, Verdict, err, TaskError, TaskState, ready, failed, done, status, complete_with,
}

pub record RuntimeTask : Type 0 where
  pub id : ℕ
  pub result : Cell (Verdict String)
  pub depends_on : List ℕ
  pub waiting_for : List ℕ
  pub depends_for : List ℕ

-- The runtime, with the orchestrator's set of running tasks and the threads it has spawned.
pub record World : Type 0 where
  pub all_tasks : List (ℕ × RuntimeTask)
  pub targets : List ℕ
  pub targets_file : List ℕ
  pub inbox : List TaskMessage
  pub running_tasks : List ℕ
  pub threads : List ℕ

pub record Env : Type 0 where
  pub clone : Verdict String → Option (Verdict String)
  pub stored_row : ℕ → Option RuntimeTask

-- The columns that the migration creates, and those that `from_row` asks for.
abbrev pub created_columns : List String
created_columns =
    "id" ∷ "proto" ∷ "result" ∷ "context" ∷ "depends_on" ∷ "waiting_for" ∷ "depends_for" ∷ "state"
    ∷ []

abbrev pub wanted_columns : List String
wanted_columns =
    "proto" ∷ "result" ∷ "id" ∷ "context" ∷ "depends_on" ∷ "waiting_on" ∷ "depends_for" ∷ []

abbrev pub all_present : List String → List String → Bool
all_present [] have = true
all_present (c ∷ cs) have = if any (str_eq c) have then all_present cs have else false

-- `try_get` of a column that the row does not have is an error, and `?` returns it.
abbrev pub from_row : Option RuntimeTask → Option RuntimeTask
from_row none = none
from_row (some t) = if all_present wanted_columns created_columns then some t else none

unfoldable pub load_task : Env → ℕ → Option RuntimeTask
load_task env id = from_row (env.stored_row id)

-- A task from memory, or from the database and then kept in memory.
unfoldable pub get_task : Env → World → ℕ → Option (RuntimeTask × World)
get_task env w id = elim (lookup id w.all_tasks) [
  | some t ↦ some (t, w)
  | none ↦ elim (load_task env id) [
    | some t ↦ some (t, record w { all_tasks = put id t w.all_tasks })
    | none ↦ none
  ]
]

abbrev pub task_status : Env → RuntimeTask → TaskState
task_status env t = status env.clone t.result.shot

abbrev pub is_ready : TaskState → Bool
is_ready ready = true
is_ready failed = false
is_ready done = false

unfoldable pub is_complete : Env → RuntimeTask → Bool
is_complete env t = elim (task_status env t) [ done ↦ true | failed ↦ true | ready ↦ false ]

-- Writing a task back through its lock.
abbrev pub set_task : ℕ → RuntimeTask → World → World
set_task id t w = record w { all_tasks = put id t w.all_tasks }

-- `RuntimeTask::cancel`, through `on_error` of src/tascii/src/task_shim.rs; `stored` says whether
-- the database takes the row of the oneshot.
unfoldable pub cancel_task : Bool → TaskError → RuntimeTask → RuntimeTask × Bool
cancel_task stored why t =
    let (cell, won) = complete_with stored (err why) t.result in (record t { result = cell }, won)

abbrev pub send : TaskMessage → World → World
send m w = record w { inbox = w.inbox ++ m ∷ [] }

abbrev pub save_targets : World → World
save_targets w = record w { targets_file = w.targets }

-- `enroll`, `create` and `save_task`: a task with a fresh oneshot enters the map.
unfoldable pub enroll : ℕ → RuntimeTask → World → World
enroll id t w = set_task id t w

-- The commit of the task is attempted; whether it is found changes only the log.
unfoldable pub set_target : ℕ → World → World
set_target id w =
    send (TaskMessage.target id) (save_targets (record w { targets = insert id w.targets }))

unfoldable pub unset_target : ℕ → World → World
unset_target id w = save_targets (record w { targets = remove id w.targets })

-- `depend` sends a message, and does nothing else.
unfoldable pub depend : ℕ → ℕ → World → World
depend a b w = send (TaskMessage.depend a b) w

-- `recover` of a new runtime reads the targets of the file back; it sends no message for them.
unfoldable pub recover : List ℕ → World
recover saved = record {
  all_tasks = [];
  targets = saved;
  targets_file = saved;
  inbox = [];
  running_tasks = [];
  threads = [];
}
