-- ===== src/Tascii/OneShot/Tests.antt =====
-- Runs of oneshot.rs: three callers complete one oneshot, in a row and at once.
use laas_reflab.Prelude.{ℕ, ◌≡◌, refl, Bool, true, false, none, some, List, [], ◌∷◌}
use laas_reflab.Tascii.OneShot.{Cell, cloned, undefined, into_oneshot, new, complete_with, get}
use laas_reflab.Tascii.OneShot.Laws.{new-Coherent, complete_all, wins, get-complete_all}
use laas_reflab.Tascii.OneShot.Race.{
  inside, storing, writing, announcing, marking, leaving, finished, Shared, initial, go, lock,
  fresh, store, write, announce, mark, unlock, Reach, here, next, get_race, get_settles,
  complete_with_once,
}

abbrev empty : Cell ℕ
empty = new 1

abbrev three_calls : List (Bool × ℕ)
three_calls = (false, 3) ∷ (true, 4) ∷ (true, 5) ∷ []

test_calls : get some (complete_all three_calls empty).0.shot ≡ cloned (some 4)
unfolding get complete_all complete_with new into_oneshot
test_calls = refl

get-complete_all_example :
    (get some (complete_all three_calls empty).0.shot ≡ cloned (some 4))
    × (wins (complete_all three_calls empty).1 ≡ 1)
unfolding new into_oneshot
get-complete_all_example = get-complete_all some three_calls empty (new-Coherent 1) refl

-- Each thread brings its own number; thread 7 runs to its end, and thread 8 waits for the lock.
abbrev own : ℕ → ℕ
own i = i

abbrev s₀ : Shared ℕ
s₀ = initial 1

abbrev s₁ : Shared ℕ
s₁ = record s₀ { holder = some 7; pc = go s₀ 7 inside }

abbrev s₂ : Shared ℕ
s₂ = record s₁ { pc = go s₁ 7 storing }

abbrev s₃ : Shared ℕ
s₃ = record s₂ { row = some 7; pc = go s₂ 7 writing }

abbrev s₄ : Shared ℕ
s₄ = record s₃ { shot = record (s₃.shot) { value = some 7 }; pc = go s₃ 7 announcing }

abbrev s₅ : Shared ℕ
s₅ = record s₄ { shot = record (s₄.shot) { announce = 0 }; pc = go s₄ 7 marking }

abbrev s₆ : Shared ℕ
s₆ = record s₅ { shot = record (s₅.shot) { completed = true }; pc = go s₅ 7 (leaving true) }

abbrev s₇ : Shared ℕ
s₇ = record s₆ { holder = none; pc = go s₆ 7 (finished true) }

abbrev s₈ : Shared ℕ
s₈ = record s₇ { holder = some 8; pc = go s₇ 8 inside }

test_announced : Reach own (initial 1) s₅
unfolding initial new into_oneshot
test_announced =
    next
      (next (next (next (next here (lock 7 refl refl)) (fresh 7 refl refl)) (store 7 refl))
        (write 7 refl))
      (announce 7 refl)

test_onwards : Reach own s₅ s₈
unfolding initial new into_oneshot
test_onwards = next (next (next here (mark 7 refl)) (unlock 7 true refl)) (lock 8 refl refl)

test_race : Reach own (initial 1) s₈
unfolding initial new into_oneshot
test_race = next (next (next test_announced (mark 7 refl)) (unlock 7 true refl)) (lock 8 refl refl)

test_read : get some s₅.shot ≡ cloned (some 7)
unfolding get initial new into_oneshot
test_read = refl

get_race_example : ¬ (get some s₈.shot ≡ undefined)
get_race_example = get_race some own 1 test_race

get_settles_example :
    ((w : ℕ) × (s₅.row ≡ some w) × (some 7 ≡ some w)) × (get some s₈.shot ≡ cloned (some 7))
get_settles_example = get_settles some own 1 test_announced test_onwards test_read

complete_with_once_example :
    (get some s₈.shot ≡ cloned (some 7)) × (s₈.row ≡ some 7) × (◌≡◌ {A = ℕ} 7 7)
unfolding initial new into_oneshot
complete_with_once_example = complete_with_once some own 1 7 7 test_race refl refl
