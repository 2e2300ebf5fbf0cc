-- ===== src/Tascii/Scheduler/Messages.antt =====
-- scheduler.rs: what the other messages do.
use laas_reflab.Prelude.{ℕ, ◌≡◌, Bool, arith, some, [], lookup}
use laas_reflab.Tascii.Message.{TaskMessage}
use laas_reflab.Tascii.Runtime.{RuntimeTask, World, Env, unset_target}
use laas_reflab.Tascii.Runtime.Loading.{get_task-lookup}
use laas_reflab.Tascii.Scheduler.{ok, on_complete, complete_loop, handle}

-- On the message that a task in memory completed, which waits for nothing, the orchestrator starts no
-- task: it only takes the task off the targets.
complete_starts_none :
    (env : Env) (stored : Bool) (id : ℕ) (w : World) (t : RuntimeTask)
    → lookup id w.all_tasks ≡ some t
    → t.waiting_for ≡ []
    → handle env stored (TaskMessage.complete id) w ≡ ok (unset_target id w)
unfolding handle on_complete complete_loop
complete_starts_none env stored id w t f e = ground (arith, get_task-lookup env w id)
