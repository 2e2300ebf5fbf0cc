-- ===== src/Tascii/Scheduler/Events.antt =====
-- scheduler.rs and runtime.rs over any history of calls, timers, tasks that finish or take too long
-- (task_shim.rs), and messages that others send.
use laas_reflab.Prelude.{ℕ, String, Bool, none, some, List, [], ◌∷◌, lookup, if◌then◌else◌}
use laas_reflab.Tascii.OneShot.{TaskError, Verdict, complete_with}
use laas_reflab.Tascii.Message.{TaskMessage}
use laas_reflab.Tascii.Runtime.{RuntimeTask, World, Env, set_task, send, set_target, enroll, depend}
use laas_reflab.Tascii.Scheduler.{Outcome, ok, ◌>>=◌, handle}

pub data Event : Type 0 where
  -- the orchestrator takes the oldest message; the database takes or refuses a row
  deliver : Bool → Event
  -- the timer of the heartbeat fires
  beat : Event
  -- a caller enrolls a task, makes one a target, or asks for an order
  enrolls : ℕ → RuntimeTask → Event
  wants : ℕ → Event
  orders : ℕ → ℕ → Event
  -- a task's thread, or its timeout, completes its oneshot
  reports : Bool → ℕ → Verdict String → Event
  -- the thread that watches over a task finds that it took too long
  times_out : Bool → ℕ → Event
  -- a thread that has the channel's other end sends a message
  sends : TaskMessage → Event

-- A thread that writes its result through the handle that it holds.
unfoldable pub report : Bool → ℕ → Verdict String → World → World
report stored id v w = elim (lookup id w.all_tasks) [
  | none ↦ w
  | some t ↦ set_task id (record t { result = (complete_with stored v t.result).0 }) w
]

-- The end of the sleep in `DynRunnableShim::run`, which tells the orchestrator only when the task had not
-- finished before.
unfoldable pub time_out : Bool → ℕ → World → World
time_out stored id w = elim (lookup id w.all_tasks) [
  | none ↦ w
  | some t ↦
      let (result, won) = complete_with stored (Verdict.err TaskError.timeout) t.result in
      let w' = set_task id (record t { result = result }) w in
      if won then send (TaskMessage.timeout id) w' else w'
]

module _ (env : Env) where
  unfoldable pub deliver_next : Bool → List TaskMessage → World → Outcome World
  deliver_next stored [] w = ok w
  deliver_next stored (m ∷ ms) w = handle env stored m (record w { inbox = ms })

  unfoldable pub step : Event → World → Outcome World
  unfolding deliver_next
  step (deliver stored) w = deliver_next stored w.inbox w
  step beat w = ok (send TaskMessage.heartbeat w)
  step (enrolls id t) w = ok (enroll id t w)
  step (wants id) w = ok (set_target id w)
  step (orders a b) w = ok (depend a b w)
  step (reports stored id v) w = ok (report stored id v w)
  step (times_out stored id) w = ok (time_out stored id w)
  step (sends m) w = ok (send m w)

  unfoldable pub run : List Event → World → Outcome World
  run [] w = ok w
  run (e ∷ es) w = step e w >>= λ w'. run es w'
