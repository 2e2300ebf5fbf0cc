-- ===== src/Deploy/Host/Milestones.antt =====
-- deploy_host.rs: in which order `DeployHost::run` gets things done, however its calls are answered.
-- Rules by which a part of it reaches the next milestones; `Calls` has those for its calls, `Whole` puts them together.
pub mod Calls
pub mod Whole
use text.Mathlib.Text.{◌==◌ as str_eq}
use laas_reflab.Prelude.{
  ℕ, zero, suc, ◌≤◌, ◌≡◌, refl, sym, ap, ◌∙◌, arith, String, Bool, true, false, not, ◌&&◌, List, [],
  ◌∷◌, ◌++◌, append-[], take, if◌then◌else◌,
}
use laas_reflab.Dal.Transaction.{
  Res, ok, err, panicked, Session, M, ◌>>=◌, ◌>>◌, pure, fail, panics, expect, attempt, and_then,
  unwrap_result, caught,
}
use laas_reflab.Deploy.Host.{
  Call, reset, set_hook, wait_next, connect, get_aggregate, get_host, get_instance, spawn_cobbler,
  join_cobbler, power_off, power_on, set_boot, network, disk, mgmt_config, prod_config,
  configure_mgmt, configure_prod, watch, wait_reachable, create_ipmi_account, send_to_admins, sleep,
  commit, Event, Env, Run, is_ok, happened, note, ask, tried, attempts, retry_for, mailbox_wait,
  wait_for, after_ipmi, prepare, image, boot_and_configure, finish, provision,
}

-- The calls without which a host is not provisioned. SetBoot is not among them: its result is not used.
abbrev pub is_milestone : Call → Bool
is_milestone power_off = true
is_milestone power_on = true
is_milestone join_cobbler = true
is_milestone configure_mgmt = true
is_milestone configure_prod = true
is_milestone (wait_next hook seconds) = not (str_eq hook "mock")
is_milestone (wait_reachable seconds) = true
is_milestone commit = true
is_milestone _ = false

-- The milestones that were reached, in order.
abbrev pub reached : List Event → List Call
reached [] = []
reached (e ∷ es) =
    let later = reached es in if e.good && is_milestone e.call then e.call ∷ later else later

abbrev pub plan : List Call
plan =
    power_off
    ∷ join_cobbler
    ∷ power_on
    ∷ configure_mgmt
    ∷ wait_next "post_image" 2100
    ∷ power_off
    ∷ power_on
    ∷ wait_next "post_boot" 2100
    ∷ configure_prod
    ∷ wait_next "post_provision" 1200
    ∷ wait_reachable 900
    ∷ commit
    ∷ []

pub reached-append :
    (es : List Event) (c : Call) (good : Bool)
    → reached (es ++ record { call = c; good = good } ∷ [])
      ≡ reached es ++ (if good && is_milestone c then c ∷ [] else [])
reached-append [] c good = ground arith
reached-append (e ∷ es) c good = ground (arith, reached-append es c good)

-- A run that stopped early: some milestones of the plan, from its start, and not all.
abbrev pub Short : Session (List Event) → Type 0
Short s = (k : ℕ) × (k ≤ 11) × (reached s.db ≡ take k plan)

module _ {A : Type 0} where
  -- After a success the first `j` milestones are reached.
  abbrev pub Post : ℕ → Res A × Session (List Event) → Type 0
  Post j (ok a, s) = reached s.db ≡ take j plan
  Post j (err e, s) = Short s
  Post j (panicked, s) = Short s

  abbrev pub Advances : ℕ → ℕ → Run A → Type 0
  Advances i j m = (s : Session (List Event)) → reached s.db ≡ take i plan → Post j (m s)

  -- Reaches no milestone, whatever it returns.
  abbrev pub Steady : Run A → Type 0
  Steady m = (s : Session (List Event)) → reached (m s).1.db ≡ reached s.db

module _ {A B : Type 0} where
  pub Advances->>= :
      (i j k : ℕ) (m : Run A) (f : A → Run B)
      → Advances i j m
      → ((a : A) → Advances j k (f a))
      → Advances i k (m >>= f)
  Advances->>= i j k m f hm hf s h = go (m s) (hm s h)
    where
      go : (r : Res A × Session (List Event)) → Post j r → Post k (and_then f r)
      go (ok a, u) p = hf a u p
      go (err e, u) p = p
      go (panicked, u) p = p

  pub Steady->>= :
      (m : Run A) (f : A → Run B) → Steady m → ((a : A) → Steady (f a)) → Steady (m >>= f)
  Steady->>= m f hm hf s = go (m s) (hm s)
    where
      go :
          (r : Res A × Session (List Event))
          → reached r.1.db ≡ reached s.db
          → reached (and_then f r).1.db ≡ reached s.db
      go (ok a, u) p = hf a u ∙ p
      go (err e, u) p = p
      go (panicked, u) p = p

module _ {A : Type 0} where
  pub Advances-expect : (i j : ℕ) (m : Run A) → Advances i j m → Advances i j (expect m)
  Advances-expect i j m hm s h = go (m s) (hm s h)
    where
      go : (r : Res A × Session (List Event)) → Post j r → Post j (unwrap_result r)
      go (ok a, u) p = p
      go (err e, u) p = p
      go (panicked, u) p = p

  pub Advances-attempt : (i : ℕ) (m : Run A) → i ≤ 11 → Steady m → Advances i i (attempt m)
  Advances-attempt i m short steady s h = go (m s) (steady s)
    where
      go : (r : Res A × Session (List Event)) → reached r.1.db ≡ reached s.db → Post i (caught r)
      go (ok a, u) p = p ∙ h
      go (err e, u) p = p ∙ h
      go (panicked, u) p = (i, short, p ∙ h)

  pub Advances-pure : (i : ℕ) (a : A) → Advances i i (pure a)
  Advances-pure i a s h = h

pub Advances-note : (i : ℕ) (c : Call) → is_milestone c ≡ false → Advances i i (note c)
Advances-note i c quiet s h = reached-append s.db c true ∙ ground (arith, append-[] (reached s.db))

module _ (env : Env) where
  pub Steady-ask : (c : Call) → is_milestone c ≡ false → Steady (ask env c)
  Steady-ask c quiet s =
      reached-append s.db c (is_ok (env.answer s.db c)) ∙ ground (arith, append-[] (reached s.db))

  pub Advances-ask : (i : ℕ) (c : Call) → i ≤ 11 → is_milestone c ≡ false → Advances i i (ask env c)
  Advances-ask i c short quiet s h = go (env.answer s.db c) (Steady-ask c quiet s ∙ h)
    where
      go : (r : Res String) → reached (ask env c s).1.db ≡ take i plan → Post i (r, (ask env c s).1)
      go (ok v) p = p
      go (err e) p = (i, short, p)
      go panicked p = (i, short, p)

  -- A milestone is reached when its call is answered with `Ok`.
  pub Advances-milestone :
      (i : ℕ) (c : Call)
      → i ≤ 11
      → is_milestone c ≡ true
      → take i plan ++ c ∷ [] ≡ take (suc i) plan
      → Advances i (suc i) (ask env c)
  Advances-milestone i c short loud next s h =
      go (env.answer s.db c) (reached-append s.db c (is_ok (env.answer s.db c)))
    where
      go :
          (r : Res String)
          → reached (happened c (is_ok r) s).db
            ≡ reached s.db ++ (if is_ok r && is_milestone c then c ∷ [] else [])
          → Post (suc i) (r, happened c (is_ok r) s)
      go (ok v) p = ground (arith)
      go (err e) p = (i, short, p ∙ append-[] (reached s.db) ∙ h)
      go panicked p = (i, short, p ∙ append-[] (reached s.db) ∙ h)
