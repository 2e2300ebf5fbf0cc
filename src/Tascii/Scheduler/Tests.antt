-- ===== src/Tascii/Scheduler/Tests.antt =====
-- Runs of scheduler.rs: task 2 depends on task 1.
use laas_reflab.Prelude.{
  ℕ, ◌≡◌, refl, ◌⊎◌, String, true, false, none, some, List, [], ◌∷◌, All, Distinct, contains,
  lookup,
}
use laas_reflab.Tascii.OneShot.{
  TaskError, Cell, Verdict, ok, into_oneshot, new, complete_with, get, status, ready, done,
}
use laas_reflab.Tascii.Message.{TaskMessage}
use laas_reflab.Tascii.Runtime.{
  RuntimeTask, World, Env, get_task, task_status, set_task, enroll, set_target, recover,
}
use laas_reflab.Tascii.Scheduler.{
  Outcome, run_task, dependency_status, scan, consider, target_loop, start_all, target, handle,
}
use laas_reflab.Tascii.Scheduler.Dependencies.{HasStatus}
use laas_reflab.Tascii.Scheduler.Target.{started, target_starts, target_runs}
use laas_reflab.Tascii.Scheduler.Events.{
  Event, enrolls, wants, deliver, beat, times_out, sends, time_out, run, step, deliver_next,
}
use laas_reflab.Tascii.Scheduler.Once.{run_once}

abbrev task : ℕ → Cell (Verdict String) → List ℕ → RuntimeTask
task id result depends_on = record {
  id = id;
  result = result;
  depends_on = depends_on;
  waiting_for = [];
  depends_for = [];
}

abbrev pub test_env : Env
test_env = record { clone = some; stored_row = λ id. none }

abbrev finished : RuntimeTask
finished = task 1 (complete_with true (ok "done") (new 1)).0 []

abbrev waiting : RuntimeTask
waiting = task 2 (new 2) (1 ∷ [])

abbrev pub two_tasks : World
two_tasks = record (recover []) { all_tasks = (1, finished) ∷ (2, waiting) ∷ [] }

test_target : target test_env 2 two_tasks ≡ Outcome.ok (started 2 (set_task 2 waiting two_tasks))
unfolding target target_loop consider get_task scan dependency_status start_all run_task status get
    complete_with new into_oneshot recover
test_target = refl

first_done : HasStatus test_env two_tasks done 1
unfolding status get complete_with new into_oneshot recover
first_done = record { task = finished; found = refl; status = refl }

target_starts_example :
    (((started 2 (set_task 2 waiting two_tasks)).threads ≡ two_tasks.threads)
      ⊎ (((started 2 (set_task 2 waiting two_tasks)).threads ≡ 2 ∷ two_tasks.threads)
          × (contains 2 two_tasks.running_tasks ≡ false)
          × (t : RuntimeTask) × (lookup 2 two_tasks.all_tasks ≡ some t)
          × (task_status test_env t ≡ ready)
          × All (HasStatus test_env two_tasks done) t.depends_on))
    × ((started 2 (set_task 2 waiting two_tasks)).inbox ≡ two_tasks.inbox)
    × ((started 2 (set_task 2 waiting two_tasks)).targets ≡ two_tasks.targets)
target_starts_example =
    target_starts test_env 2 two_tasks (started 2 (set_task 2 waiting two_tasks)) test_target

target_runs_example :
    target test_env 2 two_tasks ≡ Outcome.ok (started 2 (set_task 2 waiting two_tasks))
unfolding status get complete_with new into_oneshot recover
target_runs_example =
    target_runs test_env 2 two_tasks waiting refl refl refl (refl, tt) refl (first_done, tt)

-- A task is enrolled and made a target twice, with a heartbeat between, and times out: it starts once.
abbrev history : List Event
history =
    enrolls 1 (task 1 (new 1) [])
    ∷ wants 1
    ∷ deliver true
    ∷ beat
    ∷ wants 1
    ∷ deliver true
    ∷ deliver true
    ∷ deliver true
    ∷ times_out true 1
    ∷ deliver true
    ∷ sends TaskMessage.diagnostic
    ∷ []

abbrev last_world : World
last_world = record {
  all_tasks = (1, task 1 (complete_with true (Verdict.err TaskError.timeout) (new 1)).0 []) ∷ [];
  targets = 1 ∷ [];
  targets_file = 1 ∷ [];
  inbox = TaskMessage.stop 1 TaskError.timeout ∷ TaskMessage.diagnostic ∷ [];
  running_tasks = 1 ∷ [];
  threads = 1 ∷ [];
}

test_history : run test_env history (recover []) ≡ Outcome.ok last_world
unfolding run step deliver_next time_out complete_with enroll set_target handle target target_loop
    consider get_task scan dependency_status start_all run_task status get new into_oneshot recover
test_history = refl

run_once_example : Distinct last_world.threads
run_once_example = run_once test_env [] history last_world test_history
