-- ===== src/Tascii/Context.antt =====
-- src/tascii/src/workflows.rs: the log by which a task that is run again finds its earlier children.
pub mod Replay
pub mod Tests
use laas_reflab.Prelude.{
  ℕ, ◌+◌, Bool, true, false, Option, none, some, List, [], ◌∷◌, ◌++◌, ◌==◌, if◌then◌else◌, take,
  get_elem?,
}
use laas_reflab.Tascii.Runtime.{RuntimeTask, World, Env, get_task, enroll, set_target}
use laas_reflab.Tascii.Scheduler.{Outcome, ok, ◌>>=◌, expect}

pub record LogEnt : Type 0 where
  pub hash : ℕ
  pub tid : ℕ

pub record ContextInner : Type 0 where
  pub log : List LogEnt
  pub current_index : ℕ
  pub tid : ℕ

-- What a call of `spawn` is given: the task's hash, the task, and the id that it draws if new.
pub record Job : Type 0 where
  pub hash : ℕ
  pub fresh_id : ℕ
  pub task : RuntimeTask

pub within : ℕ → ContextInner
within tid = record { log = []; current_index = 0; tid = tid }

-- The part of `spawn` below the match: a new task is enrolled and logged, and the own one committed.
pub spawn_new : Env → Job → ContextInner → World → Outcome (ℕ × ContextInner × World)
spawn_new env j c w =
    let id = j.fresh_id in
    let w' = set_target id (enroll id j.task w) in
    let entry : LogEnt = record { hash = j.hash; tid = id } in
    let c' : ContextInner = record c {
      log = c.log ++ entry ∷ [];
      current_index = c.current_index + 1;
    } in
    expect (get_task env w' c.tid) >>= λ p. ok (id, c', p.1)

-- The match on `inner.log.get(inner.current_index)`.
pub spawn : Env → Job → ContextInner → World → Outcome (ℕ × ContextInner × World)
spawn env j c w = elim (get_elem? c.log c.current_index) [
  | some e ↦
      if e.hash == j.hash
      then ok (e.tid, record c { current_index = c.current_index + 1 }, w)
      else spawn_new env j (record c { log = take c.current_index c.log }) w
  | none ↦ spawn_new env j c w
]

pub set_volatile : ContextInner → ContextInner
set_volatile c = record c { log = [] }

pub reset : ContextInner → ContextInner
reset c = record c { current_index = 0 }

-- A run of a task, as the calls of `spawn` that it makes; the ids go to its join handles.
pub spawn_all : Env → List Job → ContextInner → World → Outcome (List ℕ × ContextInner × World)
spawn_all env [] c w = ok ([], c, w)
spawn_all env (j ∷ js) c w =
    spawn env j c w >>= λ p. spawn_all env js p.1 p.2 >>= λ q. ok (p.0 ∷ q.0, q.1, q.2)
