-- ===== src/Tascii/OneShot/Laws.antt =====
-- oneshot.rs, used by one thread at a time: the first stored completion decides every later read.
use laas_reflab.Prelude.{
  ℕ, suc, ◌≡◌, refl, arith, Bool, true, false, Option, none, some, List, [], ◌∷◌,
}
use laas_reflab.Tascii.OneShot.{
  Cell, Read, pending, cloned, undefined, into_oneshot, new, complete_with, get, drop_reads,
}

-- How many callers were told that they completed the oneshot.
abbrev pub wins : List Bool → ℕ
wins [] = 0
wins (true ∷ bs) = suc (wins bs)
wins (false ∷ bs) = wins bs

module _ {ℓ} {A : Type ℓ} where
  -- Either nothing is there yet, or the flag, the futex, the memory and the row agree on one value.
  pub data Coherent (c : Cell A) : Type ℓ where
    open_shot :
        c.shot.completed ≡ false
        → c.shot.announce ≡ 1
        → c.shot.value ≡ none
        → c.row.value ≡ none
        → Coherent c
    closed_shot :
        (v : A)
        → c.shot.completed ≡ true
        → c.shot.announce ≡ 0
        → c.shot.value ≡ some v
        → c.row.value ≡ some v
        → Coherent c

  pub new-Coherent : (id : ℕ) → Coherent (new {A = A} id)
  unfolding new
  new-Coherent id = open_shot refl refl refl refl

  -- `complete_with` keeps a oneshot coherent, whether or not the database takes the row: either nothing
  -- is there yet, or the flag, the futex, the memory and the row agree on one value.
  complete_with-Coherent :
      (stored : Bool) (v : A) (c : Cell A) → Coherent c → Coherent (complete_with stored v c).0
  unfolding complete_with
  complete_with-Coherent true v c (open_shot o a m r) =
      closed_shot v (ground arith) (ground arith) (ground arith) (ground arith)
  complete_with-Coherent false v c (open_shot o a m r) =
      open_shot (ground arith) (ground arith) (ground arith) (ground arith)
  complete_with-Coherent s v c (closed_shot w o a m r) =
      closed_shot w (ground arith) (ground arith) (ground arith) (ground arith)

  -- Several completions in a row, with what each returned to its caller.
  unfoldable pub complete_all : List (Bool × A) → Cell A → Cell A × List Bool
  complete_all [] c = (c, [])
  complete_all ((s, v) ∷ rest) c =
      let (c', won) = complete_with s v c in
      let (last, results) = complete_all rest c' in (last, won ∷ results)

  abbrev pub first_stored : List (Bool × A) → Option A
  first_stored [] = none
  first_stored ((true, v) ∷ rest) = some v
  first_stored ((false, v) ∷ rest) = first_stored rest

  abbrev pub read_of : (A → Option A) → Option A → Read A
  read_of clone none = pending
  read_of clone (some v) = cloned (clone v)

  abbrev pub one_if : Option A → ℕ
  one_if none = 0
  one_if (some v) = 1

  closed_absorbs :
      (clone : A → Option A) (calls : List (Bool × A)) (c : Cell A) (v : A)
      → c.shot.completed ≡ true
      → c.shot.announce ≡ 0
      → c.shot.value ≡ some v
      → (get clone (complete_all calls c).0.shot ≡ cloned (clone v))
        × (wins (complete_all calls c).1 ≡ 0)
  unfolding complete_all complete_with get
  closed_absorbs clone [] c v o a m = ground arith
  closed_absorbs clone ((s, w) ∷ calls) c v o a m =
      ground (arith, closed_absorbs clone calls (complete_with s w c).0 v)

  -- A oneshot that is not complete yet, given completions in any number: every read after them is
  -- of the first value whose row was stored, or pending when none was, and exactly one caller is
  -- told that it completed it, when some was stored.
  pub get-complete_all :
      (clone : A → Option A) (calls : List (Bool × A)) (c : Cell A)
      → Coherent c
      → c.shot.completed ≡ false
      → (get clone (complete_all calls c).0.shot ≡ read_of clone (first_stored calls))
        × (wins (complete_all calls c).1 ≡ one_if (first_stored calls))
  unfolding complete_all complete_with get
  get-complete_all clone calls c (closed_shot v o a m r) p = absurd (cc)
  get-complete_all clone [] c (open_shot o a m r) p = ground arith
  get-complete_all clone ((true, w) ∷ calls) c (open_shot o a m r) p =
      ground (arith, closed_absorbs clone calls (complete_with true w c).0 w)
  get-complete_all clone ((false, w) ∷ calls) c (open_shot o a m r) p =
      ground (arith, get-complete_all clone calls c (open_shot o a m r) p)

  -- What a coherent oneshot lets a caller read is what a restart reads from the stored row, and no
  -- read, nor the one made when it is dropped, is of memory that was never written.
  get-into_oneshot :
      (clone : A → Option A) (c : Cell A)
      → Coherent c
      → (get clone (into_oneshot c.row) ≡ get clone c.shot)
        × ¬ (get clone c.shot ≡ undefined)
        × ¬ (drop_reads c.shot ≡ some undefined)
  unfolding into_oneshot get drop_reads
  get-into_oneshot clone c (open_shot o a m r) = (ground arith, ground arith, ground arith)
  get-into_oneshot clone c (closed_shot v o a m r) = (ground arith, ground arith, ground arith)
