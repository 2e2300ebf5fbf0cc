-- ===== src/Tascii/Scheduler/Target.antt =====
-- scheduler.rs, `target`: which tasks it starts.
use laas_reflab.Prelude.{
  ℕ, ◌≡◌, refl, sym, ap, subst, ◌∙◌, ◌⊎◌, inl, inr, false, arith, some, List, [], ◌∷◌, contains,
  insert, lookup, put, All, Distinct, Option-cases, Bool-cases, lookup-put, ==-refl,
}
use laas_reflab.Tascii.OneShot.{ready, done}
use laas_reflab.Tascii.Runtime.{RuntimeTask, World, Env, task_status, set_task, is_ready}
use laas_reflab.Tascii.Runtime.Loading.{get_task-lookup}
use laas_reflab.Tascii.Scheduler.{
  ok, ◌>>=◌, >>=-eq-ok, Scan, scanned, looped, Plan, planned, aborted, run_task, scan, settle,
  consider, target_loop, start_all, start_plan, target, has_pair,
}
use laas_reflab.Tascii.Scheduler.Dependencies.{HasStatus, scan_lem, scan_looped, scan_done}

-- The world after a task starts.
abbrev pub started : ℕ → World → World
started id w = record w { running_tasks = insert id w.running_tasks; threads = id ∷ w.threads }

module _ (env : Env) where
  -- A call of `run_task` starts the task if it is ready and does not run, and otherwise changes
  -- nothing.
  pub run_task_cases :
      (id : ℕ) (w w' : World)
      → run_task env id w ≡ ok w'
      → (w' ≡ w)
        ⊎ ((w' ≡ started id w) × (contains id w.running_tasks ≡ false) × HasStatus env w ready id)
  unfolding run_task
  run_task_cases id w w' e = elim (Bool-cases (contains id w.running_tasks)) [
    | inl runs ↦ inl (ground arith)
    | inr idle ↦ elim (Option-cases (lookup id w.all_tasks)) [
      | inl n ↦ absurd (ground (arith, get_task-lookup env w id))
      | inr (t, f) ↦ elim (Bool-cases (is_ready (task_status env t))) [
        | inl r ↦ inr (
          ground (arith, get_task-lookup env w id),
          idle,
          record { task = t; found = f; status = ground arith },
        )
        | inr r ↦ inl (ground (arith, get_task-lookup env w id))
      ]
    ]
  ]

  pub run_task_ready :
      (id : ℕ) (w : World) (t : RuntimeTask)
      → lookup id w.all_tasks ≡ some t
      → task_status env t ≡ ready
      → contains id w.running_tasks ≡ false
      → run_task env id w ≡ ok (started id w)
  unfolding run_task
  run_task_ready id w t f r c = ground (arith, get_task-lookup env w id)

  -- What the round on the target itself makes of the local variables.
  pub data Considered (id : ℕ) (w : World) (r : Plan) : Type 0 where
    skipped : r ≡ planned [] [] w → Considered id w r
    stalled :
        (t : RuntimeTask) (ws : List ℕ) (ds : List (ℕ × ℕ))
        → lookup id w.all_tasks ≡ some t
        → r ≡ planned [] ds (set_task id (record t { waiting_for = ws }) w)
        → Considered id w r
    cleared :
        (t : RuntimeTask) (ds : List (ℕ × ℕ))
        → lookup id w.all_tasks ≡ some t
        → task_status env t ≡ ready
        → All (HasStatus env w done) t.depends_on
        → r ≡ planned (id ∷ []) ds (set_task id (record t { waiting_for = [] }) w)
        → Considered id w r
    gave_up :
        (t : RuntimeTask) (ws : List ℕ)
        → lookup id w.all_tasks ≡ some t
        → r ≡ aborted (set_task id (record t { waiting_for = ws }) w)
        → Considered id w r

  consider_ready :
      (id : ℕ) (w : World) (t : RuntimeTask)
      → lookup id w.all_tasks ≡ some t
      → task_status env t ≡ ready
      → consider env id [] [] w
        ≡ (scan env id t.depends_on [] [] w >>= λ r. ok (settle env id t [] r))
  unfolding consider
  consider_ready id w t f r = ground (arith, get_task-lookup env w id)

  settle_cases :
      (id : ℕ) (w : World) (t : RuntimeTask) (sc : Scan) (r : Plan)
      → lookup id w.all_tasks ≡ some t
      → task_status env t ≡ ready
      → scan env id t.depends_on [] [] w ≡ ok sc
      → settle env id t [] sc ≡ r
      → Considered id w r
  settle_cases id w t (scanned [] ds w') r f st e q =
      let (same, all) = scan_lem env id t.depends_on [] [] w [] ds w' e in
      cleared t ds f st (all refl).1 (ground arith)
  settle_cases id w t (scanned (x ∷ xs) ds w') r f st e q =
      let (same, all) = scan_lem env id t.depends_on [] [] w (x ∷ xs) ds w' e in
      stalled t (x ∷ xs) ds f (ground arith)
  settle_cases id w t (looped ws w') r f st e q =
      let same = scan_looped env id t.depends_on [] [] w ws w' e in gave_up t ws f (ground arith)

  pub consider_cases :
      (id : ℕ) (w : World) (r : Plan) → consider env id [] [] w ≡ ok r → Considered id w r
  unfolding consider
  consider_cases id w r e = elim (Option-cases (lookup id w.all_tasks)) [
    | inl n ↦ skipped (ground (arith, get_task-lookup env w id))
    | inr (t, f) ↦ elim (Bool-cases (is_ready (task_status env t))) [
      | inl y ↦
          let st : task_status env t ≡ ready = ground arith in
          let (sc, e', q) =
            >>=-eq-ok (scan env id t.depends_on [] [] w) (λ r. ok (settle env id t [] r))
              (sym (consider_ready id w t f st) ∙ e) in
          settle_cases id w t sc r f st e' (ground arith)
      | inr no_run ↦ skipped (ground (arith, get_task-lookup env w id))
    ]
  ]

  pub loop_once :
      (id : ℕ) (w : World) (r : Plan)
      → target_loop env (id ∷ []) [] [] w ≡ ok r
      → consider env id [] [] w ≡ ok r
  unfolding target_loop
  loop_once id w r e = let (p, c, q) = >>=-eq-ok (consider env id [] [] w) _ e in go p c q
    where
      go :
          (p : Plan)
          → consider env id [] [] w ≡ ok p
          → (elim p [
            | planned schedule depset w' ↦ target_loop env [] schedule depset w'
            | aborted w' ↦ ok (aborted w')
          ])
            ≡ ok r
          → consider env id [] [] w ≡ ok r
      go (planned s d w') c q = c ∙ q
      go (aborted w') c q = c ∙ q

  loop_of_consider :
      (id : ℕ) (w : World) (r : Plan)
      → consider env id [] [] w ≡ ok r
      → target_loop env (id ∷ []) [] [] w ≡ ok r
  unfolding target_loop
  loop_of_consider id w (planned s d w') c = rw c
  loop_of_consider id w (aborted w') c = rw c

  pub start_one :
      (id : ℕ) (w w' : World)
      → start_all env (id ∷ []) w ≡ ok w'
      → (w' ≡ w)
        ⊎ ((w' ≡ started id w) × (contains id w.running_tasks ≡ false) × HasStatus env w ready id)
  unfolding start_all
  start_one id w w' e = elim (Bool-cases (contains id w.running_tasks)) [
    | inl runs ↦ inl (ground arith)
    | inr idle ↦
        let (v, r, q) = >>=-eq-ok (run_task env id w) (λ w'. ok w') (rw idle at e) in
        elim (run_task_cases id w v r) [
          | inl same ↦ inl (ground arith)
          | inr (st, c, h) ↦ inr (ground arith, c, h)
        ]
  ]

  plan_starts :
      (id : ℕ) (w w' : World) (r : Plan)
      → Considered id w r
      → start_plan env r ≡ ok w'
      → ((w'.threads ≡ w.threads)
          ⊎ ((w'.threads ≡ id ∷ w.threads)
              × (contains id w.running_tasks ≡ false)
              × (t : RuntimeTask) × (lookup id w.all_tasks ≡ some t)
              × (task_status env t ≡ ready)
              × All (HasStatus env w done) t.depends_on))
        × (w'.inbox ≡ w.inbox)
        × (w'.targets ≡ w.targets)
  unfolding start_all
  plan_starts id w w' r (skipped e) q = (inl (ground arith), ground arith, ground arith)
  plan_starts id w w' r (stalled t ws ds f e) q = (inl (ground arith), ground arith, ground arith)
  plan_starts id w w' r (gave_up t ws f e) q = (inl (ground arith), ground arith, ground arith)
  plan_starts id w w' r (cleared t ds f st h e) q =
      let w₁ = set_task id (record t { waiting_for = [] }) w in
      elim (start_one id w₁ w' (subst (λ p. start_plan env p ≡ ok w') e q)) [
        | inl same ↦
            (inl (ap (λ v. v.threads) same), ap (λ v. v.inbox) same, ap (λ v. v.targets) same)
        | inr (go, c, s) ↦ (
          inr (ap (λ v. v.threads) go, c, t, f, st, h),
          ap (λ v. v.inbox) go,
          ap (λ v. v.targets) go,
        )
      ]

  no_pairs : (task : ℕ) (ds : List ℕ) → All (λ d. has_pair d task [] ≡ false) ds
  no_pairs task [] = tt
  no_pairs task (d ∷ ds) = (refl, no_pairs task ds)

  start_ready :
      (id : ℕ) (w : World) (t : RuntimeTask)
      → task_status env t ≡ ready
      → contains id w.running_tasks ≡ false
      → start_all env (id ∷ []) (set_task id (record t { waiting_for = [] }) w)
        ≡ ok (started id (set_task id (record t { waiting_for = [] }) w))
  unfolding start_all
  start_ready id w t r c =
      let t' : RuntimeTask = record t { waiting_for = [] } in
      let held : lookup id (put id t' w.all_tasks) ≡ some t' =
        lookup-put id id t' w.all_tasks ∙ (rw (==-refl id)) in
      ground (arith, run_task_ready id (set_task id t' w) t' held r c)

  -- What one `target` message starts: nothing, or the target itself, which then was in memory, was
  -- ready, did not run, and had every task that it depends on done. It sends no message and changes
  -- no set of targets.
  pub target_starts :
      (id : ℕ) (w w' : World)
      → target env id w ≡ ok w'
      → ((w'.threads ≡ w.threads)
          ⊎ ((w'.threads ≡ id ∷ w.threads)
              × (contains id w.running_tasks ≡ false)
              × (t : RuntimeTask) × (lookup id w.all_tasks ≡ some t)
              × (task_status env t ≡ ready)
              × All (HasStatus env w done) t.depends_on))
        × (w'.inbox ≡ w.inbox)
        × (w'.targets ≡ w.targets)
  unfolding target
  target_starts id w w' e =
      let (r, l, q) = >>=-eq-ok (target_loop env (id ∷ []) [] [] w) _ e in
      plan_starts id w w' r (consider_cases id w r (loop_once id w r l)) q

  -- A target in memory that is ready and does not run, whose dependencies are distinct
  -- other tasks that are all done, is started by its `target` message, with `waiting_for` emptied.
  pub target_runs :
      (id : ℕ) (w : World) (t : RuntimeTask)
      → lookup id w.all_tasks ≡ some t
      → task_status env t ≡ ready
      → contains id w.running_tasks ≡ false
      → Distinct t.depends_on
      → contains id t.depends_on ≡ false
      → All (HasStatus env w done) t.depends_on
      → target env id w ≡ ok (started id (set_task id (record t { waiting_for = [] }) w))
  unfolding target
  target_runs id w t f r c u self h =
      let (ds, sc) = scan_done env id t.depends_on [] w u self (no_pairs id t.depends_on) h in
      let plan = planned (id ∷ []) ds (set_task id (record t { waiting_for = [] }) w) in
      let turn : consider env id [] [] w ≡ ok plan = consider_ready id w t f r ∙ (rw sc) in
      rw (loop_of_consider id w plan turn) (start_ready id w t r c)
