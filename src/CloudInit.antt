-- ===== src/CloudInit.antt =====
-- src/workflows/src/resource_management/mailbox.rs, `get_ci_file`: the order in which a host is served its
-- cloud-init files. A priority is an `i8`, whose sums wrap around, as they do without overflow checks.
pub mod Numbering
mod Tests
use laas_reflab.Prelude.{
  ℕ, zero, suc, ◌+◌, ◌-◌, ◌%◌, Bool, true, false, String, List, [], ◌∷◌, ltb, leb, if◌then◌else◌,
}
use laas_reflab.Models.Rows.{ℤ, pos, negsuc}
use laas_reflab.Models.JsonModel.{Cifile}

-- `as i8`.
abbrev pub as_i8 : ℕ → ℤ
as_i8 n = if ltb (n % 256) 128 then pos (n % 256) else negsuc (255 - n % 256)

-- `+ 1` on an `i8`.
abbrev pub add_one : ℤ → ℤ
add_one (pos n) = if ltb n 127 then pos (suc n) else negsuc 127
add_one (negsuc zero) = pos 0
add_one (negsuc (suc n)) = negsuc n

abbrev pub le : ℤ → ℤ → Bool
le (pos m) (pos n) = leb m n
le (pos m) (negsuc n) = false
le (negsuc m) (pos n) = true
le (negsuc m) (negsuc n) = leb n m

-- `sort_by_key(|c| c.priority)`, which is stable.
abbrev pub insert_by_key : Cifile → List Cifile → List Cifile
insert_by_key c [] = c ∷ []
insert_by_key c (d ∷ ds) =
    let rest = insert_by_key c ds in if le c.priority d.priority then c ∷ d ∷ ds else d ∷ rest

abbrev pub sort_by_key : List Cifile → List Cifile
sort_by_key [] = []
sort_by_key (c ∷ cs) = insert_by_key c (sort_by_key cs)

-- `enumerate()` from `i`, and the `map` after it.
abbrev pub renumber : ℕ → List Cifile → List Cifile
renumber i [] = []
renumber i (c ∷ cs) =
    record { id = c.id; priority = add_one (as_i8 i); contents = c.contents } ∷ renumber (suc i) cs

-- The files that `get_ci_file` serves, the generated one first.
pub served : ℕ → String → List Cifile → List Cifile
served id generated files =
    record { id = id; priority = pos 0; contents = generated } ∷ renumber 0 (sort_by_key files)
