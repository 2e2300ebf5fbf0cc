-- ===== src/CloudInit/Numbering.antt =====
-- mailbox.rs, `get_ci_file`, on the files of `Cifile::new`.
use laas_reflab.Prelude.{
  ℕ, suc, ◌+◌, ◌≤◌, ◌<◌, ◌≡◌, refl, ap, arith, true, false, String, List, [], ◌∷◌, ◌&&◌, select,
  length,
}
use laas_reflab.Models.Rows.{ℤ, pos, negsuc}
use laas_reflab.Models.JsonModel.{Cifile}
use laas_reflab.CloudInit.{as_i8, add_one, le, insert_by_key, sort_by_key, renumber, served}

-- Every file but the last has a priority that is at most that of the next.
abbrev pub Sorted : List Cifile → Type 0
Sorted [] = Unit {0}
Sorted (c ∷ []) = Unit {0}
Sorted (c ∷ d ∷ ds) = (le c.priority d.priority ≡ true) × Sorted (d ∷ ds)

-- The files with a priority, in their order.
abbrev pub of_key : ℤ → List Cifile → List Cifile
of_key k cs = select (λ c. le k c.priority && le c.priority k) cs

-- The files with the priorities `i`, `i + 1` and so on.
abbrev pub numbered : ℕ → List Cifile → List Cifile
numbered i [] = []
numbered i (c ∷ cs) =
    record { id = c.id; priority = pos i; contents = c.contents } ∷ numbered (suc i) cs

le_total : (a b : ℤ) → le a b ≡ false → le b a ≡ true
le_total (pos m) (pos n) h = ground arith
le_total (pos m) (negsuc n) h = refl
le_total (negsuc m) (pos n) h = absurd (ground arith)
le_total (negsuc m) (negsuc n) h = ground arith

insert_by_key-Sorted : (c : Cifile) (ds : List Cifile) → Sorted ds → Sorted (insert_by_key c ds)
insert_by_key-Sorted c [] s = tt
insert_by_key-Sorted c (d ∷ []) s = ground (arith, le_total c.priority d.priority)
insert_by_key-Sorted c (d ∷ x ∷ ds) (h, s) =
    ground (arith, h, s, le_total c.priority d.priority, insert_by_key-Sorted c (x ∷ ds) s)

sort_by_key-Sorted : (cs : List Cifile) → Sorted (sort_by_key cs)
sort_by_key-Sorted [] = tt
sort_by_key-Sorted (c ∷ cs) = insert_by_key-Sorted c (sort_by_key cs) (sort_by_key-Sorted cs)

-- Two priorities that are both equal to `k`.
le_same : (k a b : ℤ) → (le k a && le a k) ≡ true → (le k b && le b k) ≡ true → le a b ≡ true
le_same (pos k) (pos a) (pos b) h g = ground arith
le_same (pos k) (pos a) (negsuc b) h g = absurd (ground arith)
le_same (pos k) (negsuc a) b h g = absurd (ground arith)
le_same (negsuc k) (negsuc a) (negsuc b) h g = ground arith
le_same (negsuc k) (negsuc a) (pos b) h g = refl
le_same (negsuc k) (pos a) b h g = absurd (ground arith)

of_key-insert_by_key :
    (k : ℤ) (c : Cifile) (ds : List Cifile) → of_key k (insert_by_key c ds) ≡ of_key k (c ∷ ds)
of_key-insert_by_key k c [] = refl
of_key-insert_by_key k c (d ∷ ds) =
    ground (arith, of_key-insert_by_key k c ds, le_same k c.priority d.priority)

of_key-sort_by_key : (k : ℤ) (cs : List Cifile) → of_key k (sort_by_key cs) ≡ of_key k cs
of_key-sort_by_key k [] = refl
of_key-sort_by_key k (c ∷ cs) =
    ground (arith, of_key-insert_by_key k c (sort_by_key cs), of_key-sort_by_key k cs)

length-insert_by_key :
    (c : Cifile) (ds : List Cifile) → length (insert_by_key c ds) ≡ suc (length ds)
length-insert_by_key c [] = refl
length-insert_by_key c (d ∷ ds) = ground (arith, length-insert_by_key c ds)

length-sort_by_key : (cs : List Cifile) → length (sort_by_key cs) ≡ length cs
length-sort_by_key [] = refl
length-sort_by_key (c ∷ cs) =
    ground (arith, length-insert_by_key c (sort_by_key cs), length-sort_by_key cs)

next_priority : (i : ℕ) → i < 127 → add_one (as_i8 i) ≡ pos (suc i)
next_priority i h = ground arith

renumber_lem :
    (i : ℕ) (cs : List Cifile) → i + length cs ≤ 127 → renumber i cs ≡ numbered (suc i) cs
renumber_lem i [] h = refl
renumber_lem i (c ∷ cs) h =
    ground (arith, next_priority i (omega arith), renumber_lem (suc i) cs (omega arith))

-- Up to 127 files are served in the order of the priorities they were stored with, those of one priority
-- in the order of the host's configuration, all of them and no other, after the generated file, and with
-- the priorities 0, 1, 2 and so on.
pub served_order :
    (id : ℕ) (generated : String) (files : List Cifile)
    → length files ≤ 127
    → (ordered : List Cifile) × (served id generated files
        ≡ numbered 0 (record { id = id; priority = pos 0; contents = generated } ∷ ordered))
      × Sorted ordered
      × ((k : ℤ) → of_key k ordered ≡ of_key k files)
unfolding served
served_order id generated files h = (
  sort_by_key files,
  ap (λ cs. record { id = id; priority = pos 0; contents = generated } ∷ cs)
      (renumber_lem 0 (sort_by_key files) (ground (arith, length-sort_by_key files))),
  sort_by_key-Sorted files,
  λ k. of_key-sort_by_key k files,
)
