-- ===== src/CloudInit/Tests.antt =====
-- Runs of `get_ci_file`.
use laas_reflab.Prelude.{ℕ, ◌≡◌, refl, arith, String, List, [], ◌∷◌}
use laas_reflab.Models.Rows.{ℤ, pos, negsuc}
use laas_reflab.Models.JsonModel.{Cifile}
use laas_reflab.CloudInit.{as_i8, add_one, served}
use laas_reflab.CloudInit.Numbering.{Sorted, of_key, numbered, served_order}

abbrev file : ℕ → ℤ → String → Cifile
file id priority contents = record { id = id; priority = priority; contents = contents }

abbrev three_files : List Cifile
three_files = file 1 (pos 2) "packages" ∷ file 2 (pos 1) "users" ∷ file 3 (pos 2) "ntp" ∷ []

test_served :
    served 9 "network" three_files
    ≡ file 9 (pos 0) "network"
      ∷ file 2 (pos 1) "users"
      ∷ file 1 (pos 2) "packages"
      ∷ file 3 (pos 3) "ntp"
      ∷ []
unfolding served
test_served = refl

-- The 128th file gets the lowest of all priorities.
test_overflow : add_one (as_i8 127) ≡ negsuc 127
test_overflow = refl

served_order_example :
    (ordered : List Cifile) × (served 9 "network" three_files
      ≡ numbered 0 (file 9 (pos 0) "network" ∷ ordered))
    × Sorted ordered
    × ((k : ℤ) → of_key k ordered ≡ of_key k three_files)
served_order_example = served_order 9 "network" three_files (omega arith)
