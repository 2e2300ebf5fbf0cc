-- ===== src/Deploy.antt =====
-- src/workflows/src/deploy_booking/mod.rs: `SingleHostDeploy`, which gets a host and provisions it.
-- The tasks that it spawns are code of others: what they return is a parameter. The logs, the mails
-- and the cloud-init files are left out.
pub mod Retries
pub mod Host
pub mod Freeing
pub mod Cleanup
pub mod Booking
use laas_reflab.Prelude.{ℕ, Bool, Option, none, some, List, [], ◌∷◌, ◌++◌, if◌then◌else◌}

-- What the n-th `AllocateHostTask` returns, and the i-th `DeployHost` on the host that it gave.
pub record Env : Type 0 where
  pub allocated : ℕ → Option ℕ
  pub deployed : ℕ → ℕ → Bool

-- How `run` ends, with the handles that it gives to `mark_not_working` or to `free_hosts`.
pub data Ending : Type 0 where
  provisioned no_host too_many : List ℕ → Ending

-- What the inner loop ends in: a success, or one more round of the outer one.
pub data Tried : Type 0 where
  worked failed : List ℕ → Tried

-- `0..3`.
abbrev pub tries : List ℕ
tries = 0 ∷ 1 ∷ 2 ∷ []

abbrev pub after_host : (List ℕ → Ending) → Tried → Ending
after_host next (worked maybe_bad_hosts) = provisioned maybe_bad_hosts
after_host next (failed maybe_bad_hosts) = next maybe_bad_hosts

module _ (env : Env) where
  abbrev pub try_host : ℕ → ℕ → List ℕ → List ℕ → Tried
  try_host n rh [] maybe_bad_hosts = failed maybe_bad_hosts
  try_host n rh (i ∷ is) maybe_bad_hosts =
      let again = try_host n rh is (maybe_bad_hosts ++ rh ∷ []) in
      if env.deployed n i then worked maybe_bad_hosts else again

  abbrev pub on_allocated : ℕ → (List ℕ → Ending) → List ℕ → Option ℕ → Ending
  on_allocated n next maybe_bad_hosts none = no_host maybe_bad_hosts
  on_allocated n next maybe_bad_hosts (some rh) =
      after_host next (try_host n rh tries maybe_bad_hosts)

  abbrev pub rounds : List ℕ → List ℕ → Ending
  rounds [] maybe_bad_hosts = too_many maybe_bad_hosts
  rounds (n ∷ ns) maybe_bad_hosts = on_allocated n (rounds ns) maybe_bad_hosts (env.allocated n)

  pub run : Ending
  run = rounds tries []
