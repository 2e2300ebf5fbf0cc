-- ===== src/Deploy/Retries/Tests.antt =====
-- Runs of `SingleHostDeploy`: the first host works at the second attempt, or nothing works.
use laas_reflab.Prelude.{ℕ, ◌+◌, ◌≡◌, refl, false, some, [], ◌∷◌, ◌==◌}
use laas_reflab.Deploy.{Env, provisioned, too_many, run}
use laas_reflab.Deploy.Retries.{run_gives_back}

abbrev second_try : Env
second_try = record { allocated = λ n. some (n + 10); deployed = λ n i. i == 1 }

abbrev broken : Env
broken = record { allocated = λ n. some (n + 10); deployed = λ n i. false }

test_second : run second_try ≡ provisioned (10 ∷ [])
unfolding run
test_second = refl

test_broken : run broken ≡ too_many (10 ∷ 10 ∷ 10 ∷ 11 ∷ 11 ∷ 11 ∷ 12 ∷ 12 ∷ 12 ∷ [])
unfolding run
test_broken = refl

run_gives_back_example :
    (a b c : ℕ) × (broken.allocated 0 ≡ some a)
    × (broken.allocated 1 ≡ some b)
    × (broken.allocated 2 ≡ some c)
    × ((10 ∷ 10 ∷ 10 ∷ 11 ∷ 11 ∷ 11 ∷ 12 ∷ 12 ∷ 12 ∷ []) ≡ (a ∷ a ∷ a ∷ b ∷ b ∷ b ∷ c ∷ c ∷ c ∷ []))
run_gives_back_example =
    run_gives_back broken (10 ∷ 10 ∷ 10 ∷ 11 ∷ 11 ∷ 11 ∷ 12 ∷ 12 ∷ 12 ∷ []) test_broken
