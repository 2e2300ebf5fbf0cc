-- ===== src/Deploy/Host/Retried.antt =====
-- src/workflows/src/lib.rs, `retry_for`: how often it makes its call, and what it returns.
use laas_reflab.Prelude.{
  ℕ, zero, suc, ◌<◌, ◌≡◌, refl, sym, ap, subst, ◌∙◌, arith, String, true, false, List, [], ◌∷◌,
  ◌++◌, append-[], append-cons,
}
use laas_reflab.Dal.Transaction.{Res, ok, err, panicked, Session, and_then, caught}
use laas_reflab.Deploy.Host.{
  Call, sleep, Event, Env, is_ok, happened, tried, attempts, retry_for, never_ran,
}

-- So many calls that were answered with an error, with the sleep after each.
abbrev pub failures : Call → ℕ → ℕ → List Event
failures c wait_secs zero = []
failures c wait_secs (suc n) =
    record { call = c; good = false }
    ∷ record { call = sleep wait_secs; good = true }
    ∷ failures c wait_secs n

module _ (env : Env) (c : Call) (wait_secs : ℕ) where
  -- The last of `times` failed attempts was answered with `x`; with none it is the message given.
  abbrev pub Exhausted : ℕ → String → List Event → String → Type 0
  Exhausted zero e before x = x ≡ e
  Exhausted (suc n) e before x = env.answer (before ++ failures c wait_secs n) c ≡ err x

  -- An attempt after `k` failed ones was answered so.
  abbrev pub Stopped : ℕ → List Event → Res String → List Event → Type 0
  Stopped times before r after =
      (k : ℕ) × (k < times)
      × (env.answer (before ++ failures c wait_secs k) c ≡ r)
      × (after ≡ (before ++ failures c wait_secs k) ++ record { call = c; good = is_ok r } ∷ [])

  abbrev pub Retried : ℕ → String → List Event → Res String × Session (List Event) → Type 0
  Retried times e before (ok v, s) = Stopped times before (ok v) s.db
  Retried times e before (err x, s) =
      (s.db ≡ before ++ failures c wait_secs times) × Exhausted times e before x
  Retried times e before (panicked, s) = Stopped times before panicked s.db

  -- The trace after a failed attempt.
  abbrev failed_once : List Event → List Event
  failed_once before =
      (before ++ record { call = c; good = false } ∷ [])
      ++ record { call = sleep wait_secs; good = true } ∷ []

  failed_once-append :
      (before : List Event) (n : ℕ)
      → failed_once before ++ failures c wait_secs n ≡ before ++ failures c wait_secs (suc n)
  failed_once-append before n =
      append-cons (before ++ record { call = c; good = false } ∷ [])
        (record { call = sleep wait_secs; good = true }) (failures c wait_secs n)
      ∙ append-cons before (record { call = c; good = false })
          (record { call = sleep wait_secs; good = true } ∷ failures c wait_secs n)

  Stopped-later :
      (times : ℕ) (before : List Event) (r : Res String) (after : List Event)
      → Stopped times (failed_once before) r after
      → Stopped (suc times) before r after
  Stopped-later times before r after (k, less, a, p) =
      let shift = failed_once-append before k in
      (
        suc k,
        omega arith,
        subst (λ es. env.answer es c ≡ r) shift a,
        p ∙ ap (λ es. es ++ record { call = c; good = is_ok r } ∷ []) shift,
      )

  Exhausted-later :
      (n : ℕ) (before : List Event) (e f x : String)
      → env.answer before c ≡ err e
      → Exhausted n e (failed_once before) x
      → Exhausted (suc n) f before x
  Exhausted-later zero before e f x a p =
      subst (λ es. env.answer es c ≡ err x) (sym (append-[] before)) (a ∙ ap err (sym p))
  Exhausted-later (suc n) before e f x a p =
      subst (λ es. env.answer es c ≡ err x) (failed_once-append before n) p

  Retried-later :
      (n : ℕ) (before : List Event) (e f : String) (r : Res String × Session (List Event))
      → env.answer before c ≡ err e
      → Retried n e (failed_once before) r
      → Retried (suc n) f before r
  Retried-later n before e f (ok v, s) a p = Stopped-later n before (ok v) s.db p
  Retried-later n before e f (err x, s) a (p, q) =
      (p ∙ failed_once-append before n, Exhausted-later n before e f x a q)
  Retried-later n before e f (panicked, s) a p = Stopped-later n before panicked s.db p

  Retried-attempts :
      (times : ℕ) (e : String) (s : Session (List Event))
      → Retried times e s.db (attempts env c times wait_secs e s)
  Retried-attempts zero e s = (sym (append-[] s.db), refl)
  Retried-attempts (suc n) e s = go (env.answer s.db c) refl (λ x u. Retried-attempts n x u)
    where
      here :
          (r : Res String)
          → env.answer s.db c ≡ r
          → Stopped (suc n) s.db r (happened c (is_ok r) s).db
      here r a = (
        0,
        omega arith,
        subst (λ es. env.answer es c ≡ r) (sym (append-[] s.db)) a,
        ap (λ es. es ++ record { call = c; good = is_ok r } ∷ []) (sym (append-[] s.db)),
      )

      go :
          (r : Res String)
          → env.answer s.db c ≡ r
          → ((x : String) (u : Session (List Event))
              → Retried n x u.db (attempts env c n wait_secs x u))
          → Retried (suc n) e s.db (
              and_then
                (tried env wait_secs (attempts env c n wait_secs))
                (caught (r, happened c (is_ok r) s)))
      go (ok v) a more = here (ok v) a
      go (err x) a more =
          let u : Session (List Event) = happened (sleep wait_secs) true (happened c false s) in
          Retried-later n s.db x e (attempts env c n wait_secs x u) a (more x u)
      go panicked a more = here panicked a

  -- `retry_for` makes its call at most `times` times, with a sleep after each failure: it returns the
  -- first `Ok`, or, after `times` failures, the error of the last, and what it was given to say where
  -- `times` is 0.
  pub retry_for_ends :
      (times : ℕ) (s : Session (List Event))
      → Retried times never_ran s.db (retry_for env c times wait_secs s)
  retry_for_ends times s = Retried-attempts times never_ran s
