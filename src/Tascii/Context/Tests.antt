-- ===== src/Tascii/Context/Tests.antt =====
-- Runs of the spawning part of workflows.rs: a task spawns one child, and is run again.
use laas_reflab.Prelude.{ℕ, ◌≡◌, refl, [], ◌∷◌}
use laas_reflab.Tascii.OneShot.{new, into_oneshot}
use laas_reflab.Tascii.Runtime.{World, get_task, enroll, set_target, recover}
use laas_reflab.Tascii.Scheduler.{Outcome, ◌>>=◌}
use laas_reflab.Tascii.Scheduler.Tests.{test_env, two_tasks}
use laas_reflab.Tascii.Context.{Job, within, spawn_new, spawn, set_volatile, reset, spawn_all}
use laas_reflab.Tascii.Context.Replay.{context, spawn_all_again}

abbrev child : ℕ → ℕ → Job
child hash id = record {
  hash = hash;
  fresh_id = id;
  task = record { id = id; result = new id; depends_on = []; waiting_for = []; depends_for = [] };
}

abbrev after_child : ℕ → World
after_child id = set_target id (enroll id (child 9 id).task two_tasks)

-- The task with id 1 spawns a child of hash 9, which gets the id 5.
test_spawn :
    spawn_all test_env (child 9 5 ∷ []) (within 1) two_tasks
    ≡ Outcome.ok (5 ∷ [], context (record { hash = 9; tid = 5 } ∷ []) 1 1, after_child 5)
unfolding within spawn_all spawn spawn_new get_task enroll set_target recover new into_oneshot
test_spawn = refl

spawn_all_again_example :
    spawn_all test_env
      (child 9 6 ∷ child 8 7 ∷ [])
      (reset (context (record { hash = 9; tid = 5 } ∷ []) 1 1))
      two_tasks
    ≡ (spawn_all test_env
          (child 8 7 ∷ [])
          (context (record { hash = 9; tid = 5 } ∷ []) 1 1)
          two_tasks
        >>= λ q. Outcome.ok (5 ∷ q.0, q.1, q.2))
spawn_all_again_example =
    spawn_all_again test_env (child 9 5 ∷ []) (child 9 6 ∷ []) (child 8 7 ∷ []) 1 two_tasks
      two_tasks (5 ∷ [], context (record { hash = 9; tid = 5 } ∷ []) 1 1, after_child 5) test_spawn
      refl

-- A second run that spawns a child of hash 8 first does not get the first run's child.
test_misaligned :
    spawn test_env (child 8 6) (context (record { hash = 9; tid = 5 } ∷ []) 0 1) two_tasks
    ≡ Outcome.ok (
      6,
      context (record { hash = 8; tid = 6 } ∷ []) 1 1,
      set_target 6 (enroll 6 (child 8 6).task two_tasks),
    )
unfolding spawn spawn_new get_task enroll set_target recover new into_oneshot
test_misaligned = refl

-- `set_volatile` forgets the log and keeps the index.
test_set_volatile : set_volatile (context (record { hash = 9; tid = 5 } ∷ []) 1 1) ≡ context [] 1 1
unfolding set_volatile
test_set_volatile = refl
