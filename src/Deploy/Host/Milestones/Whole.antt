-- ===== src/Deploy/Host/Milestones/Whole.antt =====
-- deploy_host.rs: the milestones of the whole of `DeployHost::run`.
use laas_reflab.Prelude.{
  ◌≡◌, ◌⊎◌, inl, inr, Option, some, none, refl, sym, ◌∙◌, arith, String, Bool, true, false, List,
  [], append-[],
}
use laas_reflab.Dal.Transaction.{
  Res, ok, err, panicked, Session, ◌>>=◌, attempt, and_then, unwrap_result, caught, >>=-eq-ok,
  pure-eq-ok,
}
use laas_reflab.Deploy.Host.{
  Call, reset, set_hook, wait_next, wait_reachable, create_ipmi_account, commit, Event, Env,
  happened, ask, retry_for, after_ipmi, prepare, image, boot_and_configure, finish, provision,
  on_value, on_mock, run,
}
use laas_reflab.Deploy.Host.Milestones.{
  reached, plan, reached-append, Short, Post, Advances, Advances->>=, Advances-pure, Advances-note,
  Steady-ask,
}
use laas_reflab.Deploy.Host.Milestones.Calls.{
  Advances-wait_for, quietly, expecting, noting, ignoring, reaching, retrying,
}

module _ (env : Env) where
  Advances-prepare : Advances 0 0 (prepare env)
  Advances-prepare = expecting env 0 0 _ _ (omega arith) refl (λ _.
      expecting env 0 0 _ _ (omega arith) refl (λ _. expecting env 0 0 _ _ (omega arith) refl (λ _.
        expecting env 0 0 _ _ (omega arith) refl (λ _.
          expecting env 0 0 _ _ (omega arith) refl (λ _.
            expecting env 0 0 _ _ (omega arith) refl (λ _.
              quietly env 0 0 _ _ (omega arith) refl
                (λ _. quietly env 0 0 _ _ (omega arith) refl (λ _. Advances-note 0 _ refl))))))))

  Advances-image : Advances 0 5 (image env)
  Advances-image = retrying env 0 5 _ 10 _ (omega arith) refl refl (λ _. noting env 1 5 _ _ refl (
      ignoring env 1 5 _ 10 _ (omega arith) refl (λ _.
        reaching env 1 5 _ _ (omega arith) refl refl (λ _. noting env 2 5 _ _ refl (
          retrying env 2 5 _ 10 _ (omega arith) refl refl (λ _.
            expecting env 3 5 _ _ (omega arith) refl (λ _.
              reaching env 3 5 _ _ (omega arith) refl refl (λ _.
                noting env 4 5 _ _ refl
                  (Advances-wait_for env 4 "post_image" 2100 (omega arith) refl refl)))))))))

  Advances-boot_and_configure : Advances 5 10 (boot_and_configure env)
  Advances-boot_and_configure = retrying env 5 10 _ 10 _ (omega arith) refl refl (λ _.
      ignoring env 6 10 _ 10 _ (omega arith) refl (λ _.
        retrying env 6 10 _ 10 _ (omega arith) refl refl (λ _.
          Advances->>= 7 8 10 _ _ (Advances-wait_for env 7 "post_boot" 2100 (omega arith) refl refl)
            (λ _. expecting env 8 10 _ _ (omega arith) refl (λ _.
              reaching env 8 10 _ _ (omega arith) refl refl
                (λ _. Advances-wait_for env 9 "post_provision" 1200 (omega arith) refl refl))))))

  Advances-after_ipmi : (r : Res String) → Advances 11 11 (after_ipmi r)
  Advances-after_ipmi (ok v) = Advances-pure 11 tt
  Advances-after_ipmi (err e) = Advances-note 11 _ refl
  Advances-after_ipmi panicked = λ s h. (11, omega arith, h)

  Advances-finish : Advances 10 12 (finish env)
  Advances-finish = reaching env 10 12 _ _ (omega arith) refl refl (λ _.
      ignoring env 11 12 _ 30 _ (omega arith) refl (λ r.
        Advances->>= 11 11 12 (after_ipmi r) _ (Advances-after_ipmi r)
          (λ _. reaching env 11 12 _ _ (omega arith) refl refl (λ _. Advances-pure 12 true))))

  Advances-provision : Advances 0 12 (provision env)
  Advances-provision = Advances->>= 0 0 12 (prepare env) _ Advances-prepare (λ _.
      Advances->>= 0 5 12 (image env) _ Advances-image (λ _.
        Advances->>= 5 10 12 (boot_and_configure env) _ Advances-boot_and_configure
          (λ _. Advances-finish)))

  -- A mock injection was answered, and says to succeed.
  abbrev pub Mocked : Type 0
  Mocked =
      (es : List Event) × (message : String) × (env.answer es (wait_next "mock" 60) ≡ ok message)
      × (env.parse_bool message ≡ some true)

  abbrev pub Ended : Res Bool × Session (List Event) → Type 0
  Ended (ok b, s) = (b ≡ true) × ((reached s.db ≡ plan) ⊎ ((reached s.db ≡ []) × Mocked))
  Ended (err e, s) = Short s
  Ended (panicked, s) = Short s

  provision-true :
      (s : Session (List Event)) (b : Bool) {s' : Session (List Event)}
      → provision env s ≡ (ok b, s')
      → b ≡ true
  provision-true s b e =
      let (_, s₁, _, e₁) = >>=-eq-ok (prepare env) _ s e in
      let (_, s₂, _, e₂) = >>=-eq-ok (image env) _ s₁ e₁ in
      let (_, s₃, _, e₃) = >>=-eq-ok (boot_and_configure env) _ s₂ e₂ in
      let (_, s₄, _, e₄) = >>=-eq-ok (ask env (wait_reachable 900)) _ s₃ e₃ in
      let (r, s₅, _, e₅) = >>=-eq-ok (attempt (retry_for env create_ipmi_account 5 30)) _ s₄ e₄ in
      let (_, s₆, _, e₆) = >>=-eq-ok (after_ipmi r) _ s₅ e₅ in
      let (_, s₇, _, e₇) = >>=-eq-ok (ask env commit) _ s₆ e₆ in sym ((pure-eq-ok true s₇ e₇).0)

  Ended-provision : (s : Session (List Event)) → reached s.db ≡ [] → Ended (provision env s)
  Ended-provision s h = go (provision env s) refl (Advances-provision s h)
    where
      go : (r : Res Bool × Session (List Event)) → provision env s ≡ r → Post 12 r → Ended r
      go (ok b, u) q p = (provision-true s b q, inl p)
      go (err e, u) q p = p
      go (panicked, u) q p = p

  Ended-on_value :
      (o : Option Bool) (s : Session (List Event))
      → reached s.db ≡ []
      → (o ≡ some true → Mocked)
      → Ended (on_value env o s)
  Ended-on_value none s h mock = Ended-provision s h
  Ended-on_value (some true) s h mock = (refl, inr (h, mock refl))
  Ended-on_value (some false) s h mock = (0, omega arith, h)

  Ended-mock :
      (s : Session (List Event))
      → reached s.db ≡ []
      → Ended ((attempt (ask env (wait_next "mock" 60)) >>= on_mock env) s)
  Ended-mock s h = go (env.answer s.db c) refl (Steady-ask env c refl s ∙ h)
    where
      c : Call
      c = wait_next "mock" 60

      go :
          (r : Res String)
          → env.answer s.db c ≡ r
          → reached (ask env c s).1.db ≡ []
          → Ended (and_then (on_mock env) (caught (r, (ask env c s).1)))
      go (ok message) q p =
          Ended-on_value (env.parse_bool message) (ask env c s).1 p (λ y. (s.db, message, q, y))
      go (err e) q p = Ended-provision (ask env c s).1 p
      go panicked q p = (0, omega arith, p)

  -- However its calls are answered, `run` reaches the milestones in the order of the plan: the host is
  -- powered off, the installer configured, the host powered on, put on the management networks and
  -- imaged, powered off and on, booted, put on its production networks, set up and seen online, and
  -- the transaction committed. It returns `Ok(true)` only with all of them reached, each exactly once,
  -- or with none where a mock injection said to succeed. If it returns an error or panics, it
  -- stopped after some first part of them.
  pub run_order : (s : Session (List Event)) → reached s.db ≡ [] → Ended (run env s)
  unfolding run
  run_order s h = go (env.answer u.db c) (Steady-ask env c refl u ∙ quiet)
    where
      c : Call
      c = set_hook "mock"

      u : Session (List Event)
      u = happened reset true s

      quiet : reached u.db ≡ []
      quiet = reached-append s.db reset true ∙ append-[] (reached s.db) ∙ h

      go :
          (r : Res String)
          → reached (ask env c u).1.db ≡ []
          → Ended (
              and_then
                (λ _. attempt (ask env (wait_next "mock" 60)) >>= on_mock env)
                (unwrap_result (r, (ask env c u).1)))
      go (ok v) p = Ended-mock (ask env c u).1 p
      go (err e) p = (0, omega arith, p)
      go panicked p = (0, omega arith, p)
