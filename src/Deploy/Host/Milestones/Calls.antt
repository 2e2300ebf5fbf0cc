-- ===== src/Deploy/Host/Milestones/Calls.antt =====
-- deploy_host.rs: how the calls of `DeployHost::run`, one by one and in `retry_for`, reach its milestones.
use laas_reflab.Prelude.{
  ℕ, zero, suc, ◌≤◌, ◌≡◌, refl, ◌∙◌, String, true, false, ◌&&◌, List, [], ◌∷◌, ◌++◌, append-[],
  take, if◌then◌else◌,
}
use laas_reflab.Dal.Transaction.{
  Res, ok, err, panicked, Session, ◌>>=◌, ◌>>◌, expect, attempt, and_then, caught,
}
use laas_reflab.Deploy.Host.{
  Call, wait_next, sleep, Event, Env, Run, is_ok, happened, note, ask, tried, attempts, never_ran,
  retry_for, mailbox_wait, wait_for,
}
use laas_reflab.Deploy.Host.Milestones.{
  is_milestone, reached, plan, reached-append, Post, Advances, Steady, Advances->>=,
  Advances-expect, Advances-attempt, Advances-note, Steady-ask, Advances-ask, Advances-milestone,
}

module _ (env : Env) where
  pub Steady-attempts :
      (c : Call) (times wait_secs : ℕ) (e : String)
      → is_milestone c ≡ false
      → Steady (attempts env c times wait_secs e)
  Steady-attempts c zero wait_secs e quiet s = refl
  Steady-attempts c (suc times) wait_secs e quiet s =
      go (env.answer s.db c) (Steady-ask env c quiet s)
        (λ e u. Steady-attempts c times wait_secs e quiet u)
    where
      go :
          (r : Res String)
          → reached (happened c (is_ok (env.answer s.db c)) s).db ≡ reached s.db
          → ((e : String) → Steady (attempts env c times wait_secs e))
          → reached
              (and_then
                (tried env wait_secs (attempts env c times wait_secs))
                (caught (r, happened c (is_ok (env.answer s.db c)) s))).1.db
            ≡ reached s.db
      go (ok v) p more = p
      go (err e) p more =
          let u : Session (List Event) = happened c (is_ok (env.answer s.db c)) s in
          more e (happened (sleep wait_secs) true u)
          ∙ reached-append u.db (sleep wait_secs) true
          ∙ append-[] (reached u.db)
          ∙ p
      go panicked p more = p

  pub Advances-attempts :
      (i : ℕ) (c : Call) (times wait_secs : ℕ) (e : String)
      → i ≤ 11
      → is_milestone c ≡ true
      → take i plan ++ c ∷ [] ≡ take (suc i) plan
      → Advances i (suc i) (attempts env c times wait_secs e)
  Advances-attempts i c zero wait_secs e short loud next s h = (i, short, h)
  Advances-attempts i c (suc times) wait_secs e short loud next s h =
      go (env.answer s.db c) (Advances-milestone env i c short loud next s h)
        (reached-append s.db c (is_ok (env.answer s.db c)))
        (λ e. Advances-attempts i c times wait_secs e short loud next)
    where
      go :
          (r : Res String)
          → Post (suc i) (r, happened c (is_ok r) s)
          → reached (happened c (is_ok r) s).db
            ≡ reached s.db ++ (if is_ok r && is_milestone c then c ∷ [] else [])
          → ((e : String) → Advances i (suc i) (attempts env c times wait_secs e))
          → Post (suc i) (
              and_then
                (tried env wait_secs (attempts env c times wait_secs))
                (caught (r, happened c (is_ok r) s)))
      go (ok v) p q more = p
      go (err e) p q more =
          let u : Session (List Event) = happened c false s in
          more e (happened (sleep wait_secs) true u) (
            reached-append u.db (sleep wait_secs) true
            ∙ append-[] (reached u.db)
            ∙ q
            ∙ append-[] (reached s.db)
            ∙ h)
      go panicked p q more = p

  pub Advances-wait_for :
      (i : ℕ) (hook : String) (seconds : ℕ)
      → i ≤ 11
      → is_milestone (wait_next hook seconds) ≡ true
      → take i plan ++ wait_next hook seconds ∷ [] ≡ take (suc i) plan
      → Advances i (suc i) (wait_for env hook seconds)
  Advances-wait_for i hook seconds short loud next s h =
      go (env.answer s.db c) (Advances-milestone env i c short loud next s h)
    where
      c : Call
      c = wait_next hook seconds

      go :
          (r : Res String)
          → Post (suc i) (r, happened c (is_ok r) s)
          → Post (suc i) (and_then mailbox_wait (caught (r, happened c (is_ok r) s)))
      go (ok v) p = p
      go (err e) p = p
      go panicked p = p

  -- The steps that reach no milestone, and go on at `i`.
  pub quietly :
      {A : Type 0} (i k : ℕ) (c : Call) (f : String → Run A)
      → i ≤ 11
      → is_milestone c ≡ false
      → ((v : String) → Advances i k (f v))
      → Advances i k (ask env c >>= f)
  quietly i k c f short quiet next =
      Advances->>= i i k (ask env c) f (Advances-ask env i c short quiet) next

  pub expecting :
      {A : Type 0} (i k : ℕ) (c : Call) (f : String → Run A)
      → i ≤ 11
      → is_milestone c ≡ false
      → ((v : String) → Advances i k (f v))
      → Advances i k (expect (ask env c) >>= f)
  expecting i k c f short quiet next =
      Advances->>= i i k (expect (ask env c)) f
        (Advances-expect i i _ (Advances-ask env i c short quiet)) next

  pub noting :
      {A : Type 0} (i k : ℕ) (c : Call) (m : Run A)
      → is_milestone c ≡ false
      → Advances i k m
      → Advances i k (note c >> m)
  noting i k c m quiet next =
      Advances->>= i i k (note c) (λ _. m) (Advances-note i c quiet) (λ _. next)

  pub ignoring :
      {A : Type 0} (i k : ℕ) (c : Call) (wait_secs : ℕ) (f : Res String → Run A)
      → i ≤ 11
      → is_milestone c ≡ false
      → ((r : Res String) → Advances i k (f r))
      → Advances i k (attempt (retry_for env c 5 wait_secs) >>= f)
  ignoring i k c wait_secs f short quiet next =
      Advances->>= i i k (attempt (retry_for env c 5 wait_secs)) f
        (Advances-attempt i _ short (Steady-attempts c 5 wait_secs never_ran quiet)) next

  pub reaching :
      {A : Type 0} (i k : ℕ) (c : Call) (f : String → Run A)
      → i ≤ 11
      → is_milestone c ≡ true
      → take i plan ++ c ∷ [] ≡ take (suc i) plan
      → ((v : String) → Advances (suc i) k (f v))
      → Advances i k (ask env c >>= f)
  reaching i k c f short loud here next =
      Advances->>= i (suc i) k (ask env c) f (Advances-milestone env i c short loud here) next

  pub retrying :
      {A : Type 0} (i k : ℕ) (c : Call) (wait_secs : ℕ) (f : String → Run A)
      → i ≤ 11
      → is_milestone c ≡ true
      → take i plan ++ c ∷ [] ≡ take (suc i) plan
      → ((v : String) → Advances (suc i) k (f v))
      → Advances i k (retry_for env c 5 wait_secs >>= f)
  retrying i k c wait_secs f short loud here next =
      Advances->>= i (suc i) k (retry_for env c 5 wait_secs) f
        (Advances-attempts i c 5 wait_secs never_ran short loud here) next
