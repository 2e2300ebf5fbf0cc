-- ===== src/Tascii/Scheduler/Once.antt =====
-- scheduler.rs: over any history, no task is started twice.
use laas_reflab.Prelude.{
  ℕ, ◌≡◌, refl, sym, subst, inl, inr, Bool, true, false, arith, List, [], ◌∷◌, if◌then◌else◌,
  contains, contains-insert, lookup, Distinct, Option-cases, Bool-cases,
}
use laas_reflab.Tascii.OneShot.{TaskError}
use laas_reflab.Tascii.Message.{TaskMessage}
use laas_reflab.Tascii.Runtime.{
  World, Env, set_task, send, set_target, unset_target, enroll, depend, recover, get_task,
}
use laas_reflab.Tascii.Runtime.Loading.{get_task-lookup}
use laas_reflab.Tascii.Scheduler.{
  ok, ◌>>=◌, >>=-eq-ok, expect, Plan, run_task, start_all, start_plan, target, target_loop,
  should_start, complete_loop, on_complete, on_stop, send_targets, handle,
}
use laas_reflab.Tascii.Scheduler.Target.{
  started, run_task_cases, Considered, skipped, stalled, cleared, gave_up, consider_cases,
  loop_once, start_one,
}
use laas_reflab.Tascii.Scheduler.Events.{
  Event, deliver, beat, enrolls, wants, orders, reports, times_out, sends, report, time_out,
  deliver_next, step, run,
}

module _ (env : Env) where
  -- Every thread spawned was spawned once, and its task is in the set of running tasks.
  pub record Once (w : World) : Type 0 where
    pub distinct : Distinct w.threads
    pub counted : (i : ℕ) → contains i w.threads ≡ true → contains i w.running_tasks ≡ true

  Once-same :
      (w w' : World)
      → w'.threads ≡ w.threads
      → w'.running_tasks ≡ w.running_tasks
      → Once w
      → Once w'
  Once-same w w' t r h = record {
    distinct = subst Distinct (sym t) h.distinct;
    counted = λ i c.
        subst (λ xs. contains i xs ≡ true) (sym r)
          (h.counted i (subst (λ xs. contains i xs ≡ true) t c));
  }

  Once-started :
      (id : ℕ) {w : World} → contains id w.running_tasks ≡ false → Once w → Once (started id w)
  Once-started id {w} c h = record {
    distinct = (ground (arith, h.counted id), h.distinct);
    counted = λ i k. ground (arith, h.counted i, contains-insert i id w.running_tasks);
  }

  run_task-Once : (id : ℕ) (w w' : World) → run_task env id w ≡ ok w' → Once w → Once w'
  run_task-Once id w w' e h = elim (run_task_cases env id w w' e) [
    | inl same ↦ subst Once (sym same) h
    | inr (go, c, s) ↦ subst Once (sym go) (Once-started id c h)
  ]

  plan-Once :
      (id : ℕ) (w w' : World) (r : Plan)
      → Considered env id w r
      → start_plan env r ≡ ok w'
      → Once w
      → Once w'
  unfolding start_all
  plan-Once id w w' r (skipped e) q h = Once-same w w' (ground arith) (ground arith) h
  plan-Once id w w' r (stalled t ws ds f e) q h = Once-same w w' (ground arith) (ground arith) h
  plan-Once id w w' r (gave_up t ws f e) q h = Once-same w w' (ground arith) (ground arith) h
  plan-Once id w w' r (cleared t ds f st d e) q h =
      let w₁ = set_task id (record t { waiting_for = [] }) w in
      let h₁ : Once w₁ = Once-same w w₁ refl refl h in
      elim (start_one env id w₁ w' (subst (λ p. start_plan env p ≡ ok w') e q)) [
        | inl same ↦ subst Once (sym same) h₁
        | inr (go, c, s) ↦ subst Once (sym go) (Once-started id {w = w₁} c h₁)
      ]

  target-Once : (id : ℕ) (w w' : World) → target env id w ≡ ok w' → Once w → Once w'
  unfolding target
  target-Once id w w' e h =
      let (r, l, q) = >>=-eq-ok (target_loop env (id ∷ []) [] [] w) _ e in
      plan-Once id w w' r (consider_cases env id w r (loop_once env id w r l)) q h

  should_start-Once :
      (finished task : ℕ) (w : World) (p : Bool × World)
      → should_start env finished task w ≡ ok p
      → Once w
      → Once p.1
  unfolding should_start
  should_start-Once finished task w p e h = elim (Option-cases (lookup task w.all_tasks)) [
    | inl n ↦ absurd (ground (arith, get_task-lookup env w task))
    | inr (t, f) ↦
        Once-same w p.1 (ground (arith, get_task-lookup env w task))
          (ground (arith, get_task-lookup env w task)) h
  ]

  -- One task of the `Complete` arm's loop.
  complete_one-Once :
      (finished task : ℕ) (w w' : World)
      → (if contains task w.running_tasks
          then ok w
          else should_start env finished task w >>= λ p.
              if p.0 then run_task env task p.1 else ok p.1)
        ≡ ok w'
      → Once w
      → Once w'
  complete_one-Once finished task w w' e h = elim (Bool-cases (contains task w.running_tasks)) [
    | inl runs ↦ Once-same w w' (ground arith) (ground arith) h
    | inr idle ↦
        let (p, s, q) = >>=-eq-ok (should_start env finished task w) _ (rw idle at e) in
        let h' = should_start-Once finished task w p s h in
        elim (Bool-cases p.0) [
          | inl y ↦ run_task-Once task p.1 w' (rw y at q) h'
          | inr n ↦ Once-same p.1 w' (ground arith) (ground arith) h'
        ]
  ]

  complete_loop-Once :
      (finished : ℕ) (tasks : List ℕ) (w w' : World)
      → complete_loop env finished tasks w ≡ ok w'
      → Once w
      → Once w'
  unfolding complete_loop
  complete_loop-Once finished [] w w' e h = Once-same w w' (ground arith) (ground arith) h
  complete_loop-Once finished (task ∷ tasks) w w' e h =
      let (v, one, rest) =
        >>=-eq-ok
          (if contains task w.running_tasks
            then ok w
            else should_start env finished task w >>= λ p.
                if p.0 then run_task env task p.1 else ok p.1)
          _ e in
      complete_loop-Once finished tasks v w' rest (complete_one-Once finished task w v one h)

  on_complete-Once : (id : ℕ) (w w' : World) → on_complete env id w ≡ ok w' → Once w → Once w'
  unfolding on_complete unset_target
  on_complete-Once id w w' e h = elim (Option-cases (lookup id w.all_tasks)) [
    | inl n ↦ absurd (ground (arith, get_task-lookup env w id))
    | inr (t, f) ↦
        let (p, g, q) = >>=-eq-ok (expect (get_task env w id)) _ e in
        let (v, l, r) = >>=-eq-ok (complete_loop env id (p.0).waiting_for p.1) _ q in
        let same : p.1 ≡ w = ground (arith, get_task-lookup env w id) in
        let hv = complete_loop-Once id (p.0).waiting_for p.1 v l (subst Once (sym same) h) in
        Once-same v w' (ground arith) (ground arith) hv
  ]

  on_stop-Once :
      (stored : Bool) (id : ℕ) (why : TaskError) (w w' : World)
      → on_stop env stored id why w ≡ ok w'
      → Once w
      → Once w'
  unfolding on_stop
  on_stop-Once stored id why w w' e h = elim (Option-cases (lookup id w.all_tasks)) [
    | inl n ↦ absurd (ground (arith, get_task-lookup env w id))
    | inr (t, f) ↦
        Once-same w w' (ground (arith, get_task-lookup env w id))
          (ground (arith, get_task-lookup env w id)) h
  ]

  send_targets-Once : (ts : List ℕ) (w : World) → Once w → Once (send_targets env ts w)
  send_targets-Once [] w h = h
  send_targets-Once (t ∷ ts) w h =
      send_targets-Once ts (send (TaskMessage.target t) w) (Once-same w _ refl refl h)

  handle-Once :
      (stored : Bool) (m : TaskMessage) (w w' : World)
      → handle env stored m w ≡ ok w'
      → Once w
      → Once w'
  unfolding handle
  handle-Once stored TaskMessage.heartbeat w w' e h =
      subst Once (ground arith) (send_targets-Once w.targets w h)
  handle-Once stored (TaskMessage.complete id) w w' e h = on_complete-Once id w w' e h
  handle-Once stored (TaskMessage.stop id why) w w' e h = on_stop-Once stored id why w w' e h
  handle-Once stored (TaskMessage.target id) w w' e h = target-Once id w w' e h
  handle-Once stored m w w' e h = Once-same w w' (ground arith) (ground arith) h

  report-Once : (stored : Bool) (id : ℕ) (v : _) (w : World) → Once w → Once (report stored id v w)
  unfolding report
  report-Once stored id v w h = elim (Option-cases (lookup id w.all_tasks)) [
    | inl n ↦ Once-same w _ (ground arith) (ground arith) h
    | inr (t, f) ↦ Once-same w _ (ground arith) (ground arith) h
  ]

  time_out-Once : (stored : Bool) (id : ℕ) (w : World) → Once w → Once (time_out stored id w)
  unfolding time_out
  time_out-Once stored id w h = elim (Option-cases (lookup id w.all_tasks)) [
    | inl n ↦ Once-same w _ (ground arith) (ground arith) h
    | inr (t, f) ↦ Once-same w _ (ground arith) (ground arith) h
  ]

  deliver-Once :
      (stored : Bool) (ms : List TaskMessage) (w w' : World)
      → deliver_next env stored ms w ≡ ok w'
      → Once w
      → Once w'
  unfolding deliver_next
  deliver-Once stored [] w w' e h = Once-same w w' (ground arith) (ground arith) h
  deliver-Once stored (m ∷ ms) w w' e h =
      let v : World = record w { inbox = ms } in
      handle-Once stored m v w' e (Once-same w v refl refl h)

  step-Once : (e : Event) (w w' : World) → step env e w ≡ ok w' → Once w → Once w'
  unfolding step enroll set_target depend
  step-Once (deliver stored) w w' e h = deliver-Once stored w.inbox w w' e h
  step-Once (reports stored id v) w w' e h = subst Once (ground arith) (report-Once stored id v w h)
  step-Once (times_out stored id) w w' e h = subst Once (ground arith) (time_out-Once stored id w h)
  step-Once (sends m) w w' e h = Once-same w w' (ground arith) (ground arith) h
  step-Once beat w w' e h = Once-same w w' (ground arith) (ground arith) h
  step-Once (enrolls id t) w w' e h = Once-same w w' (ground arith) (ground arith) h
  step-Once (wants id) w w' e h = Once-same w w' (ground arith) (ground arith) h
  step-Once (orders a b) w w' e h = Once-same w w' (ground arith) (ground arith) h

  pub run-Once : (es : List Event) (w w' : World) → run env es w ≡ ok w' → Once w → Once w'
  unfolding run
  run-Once [] w w' e h = Once-same w w' (ground arith) (ground arith) h
  run-Once (x ∷ es) w w' e h =
      let (v, s, r) = >>=-eq-ok (step env x w) _ e in run-Once es v w' r (step-Once x w v s h)

  -- From a runtime that recovered any set of targets, over any history of enrollments, targets and orders
  -- asked for, beats of the timer, tasks that finish or time out, and messages of any kind that anybody
  -- sends, in which the orchestrator neither panics nor blocks on a lock of its own: no task's thread is
  -- ever spawned twice.
  pub run_once :
      (saved : List ℕ) (es : List Event) (w : World)
      → run env es (recover saved) ≡ ok w
      → Distinct w.threads
  unfolding recover
  run_once saved es w e =
      let start : Once (recover saved) = record { distinct = tt; counted = λ i c. cc } in
      (run-Once es (recover saved) w e start).distinct
