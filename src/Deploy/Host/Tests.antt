-- ===== src/Deploy/Host/Tests.antt =====
-- Runs of `DeployHost::run` with calls that are answered in different ways.
use text.Mathlib.Text.{◌==◌ as str_eq}
use laas_reflab.Prelude.{◌≡◌, refl, String, true, none, some, List, [], if◌then◌else◌}
use laas_reflab.Dal.Transaction.{Res, ok, err, Session}
use laas_reflab.Deploy.Host.{
  Call, set_boot, wait_next, power_on, Event, Env, run, retry_for, never_ran,
}
use laas_reflab.Deploy.Host.Milestones.Whole.{Ended, run_order}
use laas_reflab.Deploy.Host.Retried.{Retried, retry_for_ends}

-- No SetBoot works; all else does.
abbrev no_ipmi : List Event → Call → Res String
no_ipmi es (set_boot b) = err "no route to the management controller"
no_ipmi es c = ok "done"

-- The host never reports that it booted.
abbrev no_boot : List Event → Call → Res String
no_boot es (wait_next hook seconds) = if str_eq hook "post_boot" then err "timed out" else ok "done"
no_boot es c = ok "done"

abbrev stubborn : Env
stubborn = record { answer = no_ipmi; parse_bool = λ text. none }

abbrev silent : Env
silent = record { answer = no_boot; parse_bool = λ text. none }

abbrev mocked : Env
mocked = record { answer = λ es c. ok "true"; parse_bool = λ text. some true }

abbrev nothing : Session (List Event)
nothing = record { db = []; draws = 0 }

-- The host is deployed although its boot device was never set.
test_set_boot : (run stubborn nothing).0 ≡ ok true
unfolding run
test_set_boot = refl

test_silent : (run silent nothing).0 ≡ err "Mailbox error"
unfolding run
test_silent = refl

test_mocked : (run mocked nothing).0 ≡ ok true
unfolding run
test_mocked = refl

run_order_example : Ended stubborn (run stubborn nothing)
run_order_example = run_order stubborn nothing refl

retry_for_ends_example :
    Retried stubborn power_on 10 5 never_ran [] (retry_for stubborn power_on 5 10 nothing)
retry_for_ends_example = retry_for_ends stubborn power_on 10 5 nothing
