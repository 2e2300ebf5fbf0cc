-- ===== src/Deploy/Host.antt =====
-- src/workflows/src/deploy_booking/deploy_host.rs: `DeployHost::run`, with `retry_for` of src/workflows/src/lib.rs,
-- as a trace of its calls. What a call answers is a parameter, which may depend on all the calls before.
-- The logs are left out.
pub mod Milestones
pub mod Retried
mod Tests
use laas_reflab.Prelude.{
  ℕ, zero, suc, String, Bool, true, false, Option, none, some, List, [], ◌∷◌, ◌++◌,
}
use laas_reflab.Dal.Transaction.{
  Res, ok, err, panicked, Session, M, ◌>>=◌, ◌>>◌, pure, fail, panics, expect, attempt,
}

pub data BootTo : Type 0 where
  network disk : BootTo

pub data Call : Type 0 where
  reset : Call  -- `context.reset()`
  set_hook : String → Call  -- `Mailbox::set_endpoint_hook`
  wait_next : String → ℕ → Call  -- a wait of so many seconds on a hook's endpoint
  connect get_aggregate get_host get_instance : Call  -- the reads of the database
  spawn_cobbler join_cobbler : Call
  power_off power_on : Call  -- a `SetPower`, spawned and joined
  set_boot : BootTo → Call
  mgmt_config prod_config : Call  -- the making of a network config
  configure_mgmt configure_prod : Call  -- a `ConfigureNetworking`, spawned and joined
  watch : String → ℕ → Call  -- the thread that waits for a host to reach the installer
  wait_reachable : ℕ → Call
  create_ipmi_account : Call
  send_to_admins : Call
  sleep : ℕ → Call
  commit : Call

-- A call that was made, and whether it was answered with `Ok`.
pub record Event : Type 0 where
  pub call : Call
  pub good : Bool

pub record Env : Type 0 where
  pub answer : List Event → Call → Res String
  -- `serde_json::from_str` for a Boolean.
  pub parse_bool : String → Option Bool

abbrev pub Run : Type 0 → Type 0
Run A = M (List Event) A

abbrev pub is_ok : Res String → Bool
is_ok (ok text) = true
is_ok (err e) = false
is_ok panicked = false

abbrev pub happened : Call → Bool → Session (List Event) → Session (List Event)
happened c good s = record s { db = s.db ++ record { call = c; good = good } ∷ [] }

-- A step with no result that could fail.
abbrev pub note : Call → Run (Unit {0})
note c s = (ok tt, happened c true s)

abbrev pub mailbox_wait : Res String → Run (Unit {0})
mailbox_wait (ok message) = pure tt
mailbox_wait (err e) = fail "Mailbox error"
mailbox_wait panicked = panics

abbrev pub after_ipmi : Res String → Run (Unit {0})
after_ipmi (ok v) = pure tt
after_ipmi (err e) = note send_to_admins
after_ipmi panicked = panics

abbrev pub never_ran : String
never_ran = "task never ran, retried 0 times?"

module _ (env : Env) where
  abbrev pub ask : Call → Run String
  ask c s = (env.answer s.db c, happened c (is_ok (env.answer s.db c)) s)

  -- The rest of the loop of `retry_for`: `next` has the attempts that are left.
  abbrev pub tried : ℕ → (String → Run String) → Res String → Run String
  tried wait_secs next (ok v) = pure v
  tried wait_secs next (err e) = do note (sleep wait_secs); next e
  tried wait_secs next panicked = panics

  abbrev pub attempts : Call → ℕ → ℕ → String → Run String
  attempts c zero wait_secs last_error = fail last_error
  attempts c (suc times) wait_secs last_error = do
    r ← attempt (ask c)
    tried wait_secs (attempts c times wait_secs) r

  abbrev pub retry_for : Call → ℕ → ℕ → Run String
  retry_for c times wait_secs = attempts c times wait_secs never_ran

  abbrev pub wait_for : String → ℕ → Run (Unit {0})
  wait_for hook seconds = do r ← attempt (ask (wait_next hook seconds)); mailbox_wait r

  abbrev pub prepare : Run (Unit {0})
  prepare = do
    _ ← expect (ask (set_hook "pre_image"))
    _ ← expect (ask (set_hook "post_image"))
    _ ← expect (ask (set_hook "post_boot"))
    _ ← expect (ask (set_hook "post_provision"))
    _ ← expect (ask connect)
    _ ← expect (ask get_aggregate)
    _ ← ask get_host
    _ ← ask get_instance
    note spawn_cobbler

  abbrev pub image : Run (Unit {0})
  image = do
    _ ← retry_for power_off 5 10
    note (sleep 2)
    _ ← attempt (retry_for (set_boot network) 5 10)
    _ ← ask join_cobbler
    note (sleep 2)
    _ ← retry_for power_on 5 10
    _ ← expect (ask mgmt_config)
    _ ← ask configure_mgmt
    note (watch "pre_image" 2100)
    wait_for "post_image" 2100

  abbrev pub boot_and_configure : Run (Unit {0})
  boot_and_configure = do
    _ ← retry_for power_off 5 10
    _ ← attempt (retry_for (set_boot disk) 5 10)
    _ ← retry_for power_on 5 10
    wait_for "post_boot" 2100
    _ ← expect (ask prod_config)
    _ ← ask configure_prod
    wait_for "post_provision" 1200

  abbrev pub finish : Run Bool
  finish = do
    _ ← ask (wait_reachable 900)
    ipmi_res ← attempt (retry_for create_ipmi_account 5 30)
    after_ipmi ipmi_res
    _ ← ask commit
    pure true

  -- What `run` does after the wait for a mock injection.
  abbrev pub provision : Run Bool
  provision = do prepare; image; boot_and_configure; finish

  abbrev pub on_value : Option Bool → Run Bool
  on_value (some true) = pure true
  on_value (some false) = fail "mock indicated failure"
  on_value none = provision

  abbrev pub on_mock : Res String → Run Bool
  on_mock (ok message) = on_value (env.parse_bool message)
  on_mock (err e) = provision
  on_mock panicked = panics

  unfoldable pub run : Run Bool
  run = do
    note reset
    _ ← expect (ask (set_hook "mock"))
    v ← attempt (ask (wait_next "mock" 60))
    on_mock v
