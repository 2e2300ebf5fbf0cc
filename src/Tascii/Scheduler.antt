-- ===== src/Tascii/Scheduler.antt =====
-- src/tascii/src/scheduler.rs: the orchestrator's message loop.
pub mod Dependencies
pub mod Target
pub mod Events
pub mod Once
pub mod Messages
pub mod Tests
use laas_reflab.Prelude.{
  ℕ, ◌≡◌, refl, String, Bool, true, false, not, Option, none, some, List, [], ◌∷◌, ◌++◌, ◌==◌,
  if◌then◌else◌, ◌&&◌, contains, insert, remove, is_empty,
}
use laas_reflab.Tascii.OneShot.{TaskError, TaskState, ready, failed, done}
use laas_reflab.Tascii.Message.{TaskMessage}
use laas_reflab.Tascii.Runtime.{
  RuntimeTask, World, Env, get_task, task_status, is_ready, is_complete, set_task, cancel_task,
  send, unset_target,
}

-- What a handler ends in: a new state, a panic of an `expect`, or a lock that its own thread holds.
pub data Outcome {ℓ} (A : Type ℓ) : Type ℓ where
  ok : A → Outcome A
  panicked : Outcome A
  deadlocked : Outcome A

infixl 5 ◌>>=◌
abbrev pub ◌>>=◌ {ℓ κ} : {A : Type ℓ} {B : Type κ} → Outcome A → (A → Outcome B) → Outcome B
ok a >>= f = f a
panicked >>= f = panicked
deadlocked >>= f = deadlocked

-- A handler that goes on to a state has gone through one.
pub >>=-eq-ok {ℓ κ} :
    {A : Type ℓ} {B : Type κ} (first : Outcome A) (next : A → Outcome B) {last : B}
    → (first >>= next) ≡ ok last
    → (between : A) × (first ≡ ok between) × (next between ≡ ok last)
>>=-eq-ok panicked next reached = cc
>>=-eq-ok deadlocked next reached = cc
>>=-eq-ok (ok between) next reached = (between, refl, reached)

-- `.expect(…)` on a task that is not there.
abbrev pub expect {ℓ} : {A : Type ℓ} → Option A → Outcome A
expect none = panicked
expect (some a) = ok a

-- `depset` is kept as the list of its pairs.
abbrev pub has_pair : ℕ → ℕ → List (ℕ × ℕ) → Bool
has_pair a b [] = false
has_pair a b ((x, y) ∷ ps) = if (x == a) && (y == b) then true else has_pair a b ps

-- A task waits for a dependency that is not done.
abbrev pub wait_on : TaskState → ℕ → List ℕ → List ℕ
wait_on done dep waiting = waiting
wait_on failed dep waiting = insert dep waiting
wait_on ready dep waiting = insert dep waiting

-- What the loop over `depends_on` ends in: the new `waiting_for` and `depset`, or the `return` on a
-- loop in the graph.
pub data Scan : Type 0 where
  scanned : List ℕ → List (ℕ × ℕ) → World → Scan
  looped : List ℕ → World → Scan

-- The local variables of `target`, and its early `return`.
pub data Plan : Type 0 where
  planned : List ℕ → List (ℕ × ℕ) → World → Plan
  aborted : World → Plan

module _ (env : Env) where
  -- The thread that runs the task is spawned here; what it does comes later, as an event.
  pub run_task : ℕ → World → Outcome World
  run_task id w =
      let start = λ (p : RuntimeTask × World).
        if is_ready (task_status env p.0)
        then record (p.1) {
          running_tasks = insert id p.1.running_tasks;
          threads = id ∷ p.1.threads;
        }
        else p.1 in
      if contains id w.running_tasks then ok w else expect (get_task env w id) >>= λ p. ok (start p)

  -- The status of a dependency is read through its lock, and the task's own is held for writing.
  pub dependency_status : ℕ → ℕ → World → Outcome (TaskState × World)
  dependency_status task dep w =
      if dep == task
      then deadlocked
      else expect (get_task env w dep) >>= λ p. ok (task_status env p.0, p.1)

  pub scan : ℕ → List ℕ → List ℕ → List (ℕ × ℕ) → World → Outcome Scan
  scan task [] waiting depset w = ok (scanned waiting depset w)
  scan task (dep ∷ deps) waiting depset w = dependency_status task dep w >>= λ p.
      let waiting' = wait_on p.0 dep waiting in
      let rest = scan task deps waiting' ((dep, task) ∷ depset) p.1 in
      if has_pair dep task depset then ok (looped waiting' p.1) else rest

  abbrev pub settle : ℕ → RuntimeTask → List ℕ → Scan → Plan
  settle id t schedule (scanned waiting depset w) =
      planned (if is_empty waiting then insert id schedule else schedule) depset
        (set_task id (record t { waiting_for = waiting }) w)
  settle id t schedule (looped waiting w) =
      aborted (set_task id (record t { waiting_for = waiting }) w)

  -- One round of the `while` loop, on the task that was popped.
  pub consider : ℕ → List ℕ → List (ℕ × ℕ) → World → Outcome Plan
  consider id schedule depset w = elim (get_task env w id) [
    | none ↦ ok (planned schedule depset w)
    | some (t, w') ↦
        if contains id schedule
        then ok (planned schedule depset w')
        else if is_ready (task_status env t)
        then (scan id t.depends_on [] depset w' >>= λ r. ok (settle id t schedule r))
        else ok (planned schedule depset w')
  ]

  -- The loop over `required_tasks`. Nothing is ever pushed onto that queue, so it only shrinks.
  pub target_loop : List ℕ → List ℕ → List (ℕ × ℕ) → World → Outcome Plan
  target_loop [] schedule depset w = ok (planned schedule depset w)
  target_loop (id ∷ queue) schedule depset w = consider id schedule depset w >>= λ r. elim r [
    | planned schedule' depset' w' ↦ target_loop queue schedule' depset' w'
    | aborted w' ↦ ok (aborted w')
  ]

  pub start_all : List ℕ → World → Outcome World
  start_all [] w = ok w
  start_all (id ∷ ids) w =
      (if contains id w.running_tasks then ok w else run_task id w) >>= λ w'. start_all ids w'

  abbrev pub start_plan : Plan → Outcome World
  start_plan (planned schedule depset w) = start_all schedule w
  start_plan (aborted w) = ok w

  pub target : ℕ → World → Outcome World
  target id w = target_loop (id ∷ []) [] [] w >>= λ r. start_plan r

  -- The closure of the `Complete` arm on one task: take the finished task off its `waiting_for`,
  -- and say whether it should start.
  pub should_start : ℕ → ℕ → World → Outcome (Bool × World)
  should_start finished task w = expect (get_task env w task) >>= λ p.
      let t : RuntimeTask = record (p.0) { waiting_for = remove finished (p.0).waiting_for } in
      ok (if is_empty t.waiting_for then not (is_complete env t) else false, set_task task t p.1)

  pub complete_loop : ℕ → List ℕ → World → Outcome World
  complete_loop finished [] w = ok w
  complete_loop finished (task ∷ tasks) w =
      (if contains task w.running_tasks
        then ok w
        else should_start finished task w >>= λ p. if p.0 then run_task task p.1 else ok p.1)
      >>= λ w'. complete_loop finished tasks w'

  -- The `Complete` arm; its `depends_for` is read from the task's `waiting_for`.
  pub on_complete : ℕ → World → Outcome World
  on_complete id w = expect (get_task env w id) >>= λ p.
      complete_loop id (p.0).waiting_for p.1 >>= λ w'. ok (unset_target id w')

  -- The `Stop` arm; `stored` says whether the database takes the row of the task's oneshot.
  pub on_stop : Bool → ℕ → TaskError → World → Outcome World
  on_stop stored id why w =
      expect (get_task env w id) >>= λ p. ok (set_task id (cancel_task stored why p.0).0 p.1)

  abbrev send_targets : List ℕ → World → World
  send_targets [] w = w
  send_targets (t ∷ ts) w = send_targets ts (send (TaskMessage.target t) w)

  -- One turn of `task_loop`, on the message received.
  pub handle : Bool → TaskMessage → World → Outcome World
  handle stored TaskMessage.heartbeat w = ok (send_targets w.targets w)
  handle stored (TaskMessage.complete id) w = on_complete id w
  handle stored (TaskMessage.cancel id) w =
      ok (send (TaskMessage.stop id (TaskError.reason "user canceled the task")) w)
  handle stored (TaskMessage.timeout id) w = ok (send (TaskMessage.stop id TaskError.timeout) w)
  handle stored (TaskMessage.failure id why) w = ok (send (TaskMessage.stop id why) w)
  handle stored (TaskMessage.stop id why) w = on_stop stored id why w
  handle stored (TaskMessage.target id) w = target id w
  handle stored (TaskMessage.diagnostic) w = ok w
  handle stored (TaskMessage.depend a b) w = ok w
  handle stored (TaskMessage.un_depend a b) w = ok w
