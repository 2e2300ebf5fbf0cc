-- ===== src/Tascii/Scheduler/Dependencies.antt =====
-- scheduler.rs, the loop of `target` over the dependencies of a task.
use laas_reflab.Prelude.{
  ℕ, ◌≡◌, refl, ◌⊎◌, inl, inr, ◌≢◌, false, arith, some, List, [], ◌∷◌, contains, lookup, All,
  Distinct, ==_iff, ==-ne, ==-refl, Option-cases,
}
use laas_reflab.Tascii.OneShot.{TaskState, ready, failed, done}
use laas_reflab.Tascii.Runtime.{RuntimeTask, World, Env, task_status}
use laas_reflab.Tascii.Runtime.Loading.{get_task-lookup}
use laas_reflab.Tascii.Scheduler.{
  ok, >>=-eq-ok, Scan, scanned, looped, wait_on, dependency_status, scan, has_pair,
}

module _ (env : Env) where
  -- The task `id` is in memory and has the given status.
  pub record HasStatus (w : World) (st : TaskState) (id : ℕ) : Type 0 where
    pub task : RuntimeTask
    pub found : lookup id w.all_tasks ≡ some task
    pub status : task_status env task ≡ st

  -- A dependency's status is what memory says, and reading it changes nothing.
  dependency_status_lem :
      (task dep : ℕ) (w : World) (t : RuntimeTask)
      → dep ≢ task
      → lookup dep w.all_tasks ≡ some t
      → dependency_status env task dep w ≡ ok (task_status env t, w)
  unfolding dependency_status
  dependency_status_lem task dep w t ne f =
      rw (==-ne dep task ne, get_task-lookup env w dep, f) refl

  dependency_status_ok :
      (task dep : ℕ) (w : World) (p : TaskState × World)
      → dependency_status env task dep w ≡ ok p
      → (dep ≢ task) × (t : RuntimeTask) × (lookup dep w.all_tasks ≡ some t)
  unfolding dependency_status
  dependency_status_ok task dep w p e = elim (Option-cases (lookup dep w.all_tasks)) [
    | inl n ↦ absurd (ground (arith, get_task-lookup env w dep))
    | inr (t, f) ↦ (λ q. ground (arith, ==-refl dep), t, f)
  ]

  -- One round of a scan that goes on to its end.
  scan_round :
      (task dep : ℕ) (deps waiting : List ℕ) (depset : List (ℕ × ℕ)) (w : World) (r : Scan)
      → scan env task (dep ∷ deps) waiting depset w ≡ ok r
      → (dep ≢ task)
        × (t : RuntimeTask) × (lookup dep w.all_tasks ≡ some t)
        × ((scan env task deps (wait_on (task_status env t) dep waiting) ((dep, task) ∷ depset) w
              ≡ ok r)
            ⊎ (r ≡ looped (wait_on (task_status env t) dep waiting) w))
  unfolding scan
  scan_round task dep deps waiting depset w r e =
      let (p, d, rest) = >>=-eq-ok (dependency_status env task dep w) _ e in
      let (ne, t, f) = dependency_status_ok task dep w p d in
      let same = dependency_status_lem task dep w t ne f in (ne, t, f, ground (arith, same))

  wait_on-nil :
      (st : TaskState) (dep : ℕ) (waiting : List ℕ)
      → wait_on st dep waiting ≡ []
      → (st ≡ done) × (waiting ≡ [])
  wait_on-nil done dep waiting e = (refl, e)
  wait_on-nil failed dep waiting e = absurd (ground arith)
  wait_on-nil ready dep waiting e = absurd (ground arith)

  -- A scan changes no task but the one it is for, and waits for nothing only if all are done.
  pub scan_lem :
      (task : ℕ) (deps waiting : List ℕ) (depset : List (ℕ × ℕ)) (w : World) (ws : List ℕ)
      (ds : List (ℕ × ℕ)) (w' : World)
      → scan env task deps waiting depset w ≡ ok (scanned ws ds w')
      → (w' ≡ w) × (ws ≡ [] → (waiting ≡ []) × All (HasStatus w done) deps)
  unfolding scan
  scan_lem task [] waiting depset w ws ds w' e = (ground arith, λ z. (ground arith, tt))
  scan_lem task (dep ∷ deps) waiting depset w ws ds w' e =
      let (ne, t, f, alt) = scan_round task dep deps waiting depset w (scanned ws ds w') e in
      elim alt [
        | inl e' ↦
            let (same, onward) =
              scan_lem task deps (wait_on (task_status env t) dep waiting) ((dep, task) ∷ depset) w
                ws ds w' e' in
            (
              same,
              λ z.
                  let (none_yet, rest) = onward z in
                  let (is_done, nil) = wait_on-nil (task_status env t) dep waiting none_yet in
                  (nil, (record { task = t; found = f; status = is_done }, rest)),
            )
        | inr e' ↦ absurd (cc)
      ]

  pub scan_looped :
      (task : ℕ) (deps waiting : List ℕ) (depset : List (ℕ × ℕ)) (w : World) (ws : List ℕ)
      (w' : World)
      → scan env task deps waiting depset w ≡ ok (looped ws w')
      → w' ≡ w
  unfolding scan
  scan_looped task [] waiting depset w ws w' e = absurd (ground arith)
  scan_looped task (dep ∷ deps) waiting depset w ws w' e =
      let (ne, t, f, alt) = scan_round task dep deps waiting depset w (looped ws w') e in
      elim alt [
        | inl e' ↦
            scan_looped task deps (wait_on (task_status env t) dep waiting) ((dep, task) ∷ depset) w
              ws w' e'
        | inr e' ↦ ground arith
      ]

  -- Over distinct dependencies, all done, the scan goes through and waits for nothing.
  pub scan_done :
      (task : ℕ) (deps : List ℕ) (depset : List (ℕ × ℕ)) (w : World)
      → Distinct deps
      → contains task deps ≡ false
      → All (λ d. has_pair d task depset ≡ false) deps
      → All (HasStatus w done) deps
      → (ds : List (ℕ × ℕ)) × (scan env task deps [] depset w ≡ ok (scanned [] ds w))
  unfolding scan
  scan_done task [] depset w u c p h = (depset, refl)
  scan_done task (dep ∷ deps) depset w u c p h =
      let ne : dep ≢ task = λ q. ground (arith, ==_iff dep task) in
      let read = dependency_status_lem task dep w (h.0).task ne (h.0).found in
      let (ds, e) =
        scan_done task deps ((dep, task) ∷ depset) w u.1 (ground arith)
          (apart dep task depset deps u.0 p.1) h.1 in
      (ds, ground (arith, read, (h.0).status))
    where
      apart :
          (dep task : ℕ) (depset : List (ℕ × ℕ)) (ds : List ℕ)
          → contains dep ds ≡ false
          → All (λ d. has_pair d task depset ≡ false) ds
          → All (λ d. has_pair d task ((dep, task) ∷ depset) ≡ false) ds
      apart dep task depset [] c a = tt
      apart dep task depset (d ∷ ds) c a =
          (ground arith, apart dep task depset ds (ground arith) a.1)
