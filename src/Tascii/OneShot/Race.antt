-- ===== src/Tascii/OneShot/Race.antt =====
-- oneshot.rs, `complete_with` and `get`, by any number of threads at once: the task, its timeout
-- and a cancellation race to complete one oneshot while other threads read it without the lock.
use laas_reflab.Prelude.{
  ℕ, ◌≡◌, refl, ◌⊎◌, inl, inr, arith, Bool, true, false, Option, none, some, ◌==◌, if◌then◌else◌,
}
use laas_reflab.Tascii.OneShot.{OneShot, cloned, undefined, new, get}

-- Where a thread stands in `complete_with`.
pub data Pc : Type 0 where
  start : Pc  -- before `self.completed.lock()`
  inside : Pc  -- with the lock, before `if !*g`
  storing : Pc  -- before the row is stored
  writing : Pc  -- before the value is written to memory
  announcing : Pc  -- before the futex is set to 0
  marking : Pc  -- before `*g = true`
  leaving : Bool → Pc  -- before the lock is dropped, with the result
  finished : Bool → Pc

-- A thread that holds the lock, and one that is told that it completed the oneshot.
abbrev critical : Pc → Bool
critical start = false
critical (finished b) = false
critical _ = true

abbrev won : Pc → Bool
won (leaving true) = true
won (finished true) = true
won _ = false

module _ (A : Type 0) where
  -- The shared memory, the row in the database, the lock's holder, and the threads' positions.
  pub record Shared : Type 0 where
    pub shot : OneShot A
    pub row : Option A
    pub holder : Option ℕ
    pub pc : ℕ → Pc

module _ {A : Type 0} where
  abbrev pub go : Shared A → ℕ → Pc → ℕ → Pc
  go s i p j = if j == i then p else s.pc j

  unfoldable pub initial : ℕ → Shared A
  unfolding new
  initial id = record { shot = (new id).shot; row = none; holder = none; pc = λ i. start }

  -- One step of thread `i`, whose argument is `v i`.
  pub data Step (v : ℕ → A) (s : Shared A) : Shared A → Type 0 where
    lock :
        (i : ℕ)
        → s.pc i ≡ start
        → s.holder ≡ none
        → Step v s (record s { holder = some i; pc = go s i inside })
    already :
        (i : ℕ)
        → s.pc i ≡ inside
        → s.shot.completed ≡ true
        → Step v s (record s { pc = go s i (leaving false) })
    fresh :
        (i : ℕ)
        → s.pc i ≡ inside
        → s.shot.completed ≡ false
        → Step v s (record s { pc = go s i storing })
    store :
        (i : ℕ) → s.pc i ≡ storing → Step v s (record s { row = some (v i); pc = go s i writing })
    refuse : (i : ℕ) → s.pc i ≡ storing → Step v s (record s { pc = go s i (leaving false) })
    write :
        (i : ℕ)
        → s.pc i ≡ writing
        → Step v s
            (record s { shot = record (s.shot) { value = some (v i) }; pc = go s i announcing })
    announce :
        (i : ℕ)
        → s.pc i ≡ announcing
        → Step v s (record s { shot = record (s.shot) { announce = 0 }; pc = go s i marking })
    mark :
        (i : ℕ)
        → s.pc i ≡ marking
        → Step v s
            (record s { shot = record (s.shot) { completed = true }; pc = go s i (leaving true) })
    unlock :
        (i : ℕ) (b : Bool)
        → s.pc i ≡ leaving b
        → Step v s (record s { holder = none; pc = go s i (finished b) })

  pub data Reach (v : ℕ → A) (s : Shared A) : Shared A → Type 0 where
    here : Reach v s s
    next : {t u : Shared A} → Reach v s t → Step v t u → Reach v s u

  -- What the memory and the row look like to a thread at `p` whose argument is `w`.
  abbrev Facts : Pc → A → Shared A → Type 0
  Facts start w s = Unit
  Facts inside w s = (s.shot.completed ≡ true) ⊎ (s.shot.announce ≡ 1)
  Facts storing w s = (s.shot.completed ≡ false) × (s.shot.announce ≡ 1)
  Facts writing w s = (s.shot.completed ≡ false) × (s.shot.announce ≡ 1) × (s.row ≡ some w)
  Facts announcing w s =
      (s.shot.completed ≡ false)
      × (s.shot.announce ≡ 1)
      × (s.row ≡ some w)
      × (s.shot.value ≡ some w)
  Facts marking w s =
      (s.shot.completed ≡ false)
      × (s.shot.announce ≡ 0)
      × (s.row ≡ some w)
      × (s.shot.value ≡ some w)
  Facts (leaving true) w s = (s.shot.completed ≡ true) × (s.row ≡ some w) × (s.shot.value ≡ some w)
  Facts (leaving false) w s = (s.shot.completed ≡ true) ⊎ (s.shot.announce ≡ 1)
  Facts (finished true) w s = (s.shot.completed ≡ true) × (s.row ≡ some w) × (s.shot.value ≡ some w)
  Facts (finished false) w s = Unit

  pub record Inv (v : ℕ → A) (s : Shared A) : Type 0 where
    pub mutex : (i : ℕ) → critical (s.pc i) ≡ true → s.holder ≡ some i
    pub facts : (i : ℕ) → Facts (s.pc i) (v i) s
    pub free : s.holder ≡ none → (s.shot.completed ≡ true) ⊎ (s.shot.announce ≡ 1)
    pub shown : s.shot.announce ≡ 0 → (w : A) × (s.shot.value ≡ some w) × (s.row ≡ some w)
    pub settled : s.shot.completed ≡ true → s.shot.announce ≡ 0
    pub flag : (s.shot.announce ≡ 0) ⊎ (s.shot.announce ≡ 1)
    pub unique : (i j : ℕ) → won (s.pc i) ≡ true → won (s.pc j) ≡ true → i ≡ j

  Step-mutex :
      (v : ℕ → A) {s t : Shared A}
      → Inv v s
      → Step v s t
      → (j : ℕ) → critical (t.pc j) ≡ true
      → t.holder ≡ some j
  Step-mutex v h (lock i p q) j = ground (arith, h.mutex j)
  Step-mutex v h (already i p q) j = ground (arith, h.mutex j, h.mutex i)
  Step-mutex v h (fresh i p q) j = ground (arith, h.mutex j, h.mutex i)
  Step-mutex v h (store i p) j = ground (arith, h.mutex j, h.mutex i)
  Step-mutex v h (refuse i p) j = ground (arith, h.mutex j, h.mutex i)
  Step-mutex v h (write i p) j = ground (arith, h.mutex j, h.mutex i)
  Step-mutex v h (announce i p) j = ground (arith, h.mutex j, h.mutex i)
  Step-mutex v h (mark i p) j = ground (arith, h.mutex j, h.mutex i)
  Step-mutex v h (unlock i b p) j = ground (arith, h.mutex j, h.mutex i)

  Step-Facts :
      (v : ℕ → A) {s t : Shared A} → Inv v s → Step v s t → (j : ℕ) → Facts (t.pc j) (v j) t
  Step-Facts v h (lock i p q) j = ground (arith, h.facts j, h.free)
  Step-Facts v h (already i p q) j = ground (arith, h.facts j)
  Step-Facts v h (fresh i p q) j = ground (arith, h.facts j, h.facts i)
  Step-Facts v h (store i p) j = ground (arith, h.facts j, h.facts i, h.mutex j, h.mutex i)
  Step-Facts v h (refuse i p) j = ground (arith, h.facts j, h.facts i)
  Step-Facts v h (write i p) j = ground (arith, h.facts j, h.facts i, h.mutex j, h.mutex i)
  Step-Facts v h (announce i p) j = ground (arith, h.facts j, h.facts i, h.mutex j, h.mutex i)
  Step-Facts v h (mark i p) j = ground (arith, h.facts j, h.facts i, h.mutex j, h.mutex i)
  Step-Facts v h (unlock i b p) j = ground (arith, h.facts j, h.facts i)

  Step-unique :
      (v : ℕ → A) {s t : Shared A}
      → Inv v s
      → Step v s t
      → (j k : ℕ) → won (t.pc j) ≡ true
      → won (t.pc k) ≡ true
      → j ≡ k
  Step-unique v h (lock i p q) j k = ground (arith, h.unique j k)
  Step-unique v h (already i p q) j k = ground (arith, h.unique j k)
  Step-unique v h (fresh i p q) j k = ground (arith, h.unique j k)
  Step-unique v h (store i p) j k = ground (arith, h.unique j k)
  Step-unique v h (refuse i p) j k = ground (arith, h.unique j k)
  Step-unique v h (write i p) j k = ground (arith, h.unique j k)
  Step-unique v h (announce i p) j k = ground (arith, h.unique j k)
  Step-unique v h (mark i p) j k = ground (arith, h.unique j k, h.facts i, h.facts j, h.facts k)
  Step-unique v h (unlock i b p) j k = ground (arith, h.unique j k, h.unique i k, h.unique j i)

  -- The facts about the memory alone.
  Step-memory :
      (v : ℕ → A) {s t : Shared A}
      → Inv v s
      → Step v s t
      → (t.holder ≡ none → (t.shot.completed ≡ true) ⊎ (t.shot.announce ≡ 1))
        × (t.shot.announce ≡ 0 → (w : A) × (t.shot.value ≡ some w) × (t.row ≡ some w))
        × (t.shot.completed ≡ true → t.shot.announce ≡ 0)
        × ((t.shot.announce ≡ 0) ⊎ (t.shot.announce ≡ 1))
  Step-memory v h (lock i p q) = (ground arith, h.shown, h.settled, h.flag)
  Step-memory v h (already i p q) = (h.free, h.shown, h.settled, h.flag)
  Step-memory v h (fresh i p q) = (h.free, h.shown, h.settled, h.flag)
  Step-memory v h (store i p) = (h.free, ground (arith, h.facts i), h.settled, h.flag)
  Step-memory v h (refuse i p) = (h.free, h.shown, h.settled, h.flag)
  Step-memory v h (write i p) = (h.free, ground (arith, h.facts i), h.settled, h.flag)
  Step-memory v h (announce i p) =
      (ground (arith, h.mutex i), ground (arith, h.facts i), ground arith, inl refl)
  Step-memory v h (mark i p) = (ground arith, h.shown, ground (arith, h.facts i), h.flag)
  Step-memory v h (unlock i b p) = (ground (arith, h.facts i), h.shown, h.settled, h.flag)

  Step-Inv : (v : ℕ → A) {s t : Shared A} → Inv v s → Step v s t → Inv v t
  Step-Inv v h st =
      let (free, shown, settled, flag) = Step-memory v h st in
      record {
        mutex = Step-mutex v h st;
        facts = Step-Facts v h st;
        free = free;
        shown = shown;
        settled = settled;
        flag = flag;
        unique = Step-unique v h st;
      }

  initial-Inv : (v : ℕ → A) (id : ℕ) → Inv v (initial id)
  unfolding initial
  initial-Inv v id = record {
    mutex = λ i p. cc;
    facts = λ i. tt;
    free = λ e. inr refl;
    shown = λ e. absurd (omega arith);
    settled = λ e. cc;
    flag = inr refl;
    unique = λ i j p q. cc;
  }

  Reach-Inv : (v : ℕ → A) {s t : Shared A} → Inv v s → Reach v s t → Inv v t
  Reach-Inv v h here = h
  Reach-Inv v h (next r st) = Step-Inv v (Reach-Inv v h r) st

  get-Inv :
      (clone : A → Option A) (v : ℕ → A) (t : Shared A)
      → Inv v t
      → ¬ (get clone t.shot ≡ undefined)
        × ((o : Option A)
            → get clone t.shot ≡ cloned o
            → (w : A) × (t.row ≡ some w) × (o ≡ clone w))
  unfolding get
  get-Inv clone v t h = elim h.flag [
    | inl z ↦ let (w, m, r) = h.shown z in (ground arith, λ o e. (w, r, ground arith))
    | inr y ↦ (ground arith, λ o e. absurd (ground arith))
  ]

  -- However the threads interleave: no read of the value, made at any moment without the lock, is
  -- of memory that was never written.
  pub get_race :
      (clone : A → Option A) (v : ℕ → A) (id : ℕ) {t : Shared A}
      → Reach v (initial id) t
      → ¬ (get clone t.shot ≡ undefined)
  get_race clone v id {t} r = (get-Inv clone v t (Reach-Inv v (initial-Inv v id) r)).0

  -- However the threads interleave: a value that a thread reads is already stored in the row.
  get_stored :
      (clone : A → Option A) (v : ℕ → A) (id : ℕ) (o : Option A) {t : Shared A}
      → Reach v (initial id) t
      → get clone t.shot ≡ cloned o
      → (w : A) × (t.row ≡ some w) × (o ≡ clone w)
  get_stored clone v id o {t} r e = (get-Inv clone v t (Reach-Inv v (initial-Inv v id) r)).1 o e

  -- However the threads interleave: no two of them are told that they completed the oneshot.
  complete_with_race :
      (v : ℕ → A) (id i j : ℕ) {t : Shared A}
      → Reach v (initial id) t
      → t.pc i ≡ finished true
      → t.pc j ≡ finished true
      → j ≡ i
  complete_with_race v id i j {t} r p q =
      (Reach-Inv v (initial-Inv v id) r).unique j i (ground arith) (ground arith)

  -- However the threads interleave: once a thread is told that it completed the oneshot, every read
  -- is of the value that it brought, and the row holds that value.
  complete_with_wins :
      (clone : A → Option A) (v : ℕ → A) (id i : ℕ) {t : Shared A}
      → Reach v (initial id) t
      → t.pc i ≡ finished true
      → (get clone t.shot ≡ cloned (clone (v i))) × (t.row ≡ some (v i))
  unfolding get
  complete_with_wins clone v id i {t} r p =
      let h = Reach-Inv v (initial-Inv v id) r in
      (ground (arith, h.facts i, h.settled), ground (arith, h.facts i))

  get-Step :
      (clone : A → Option A) (v : ℕ → A) {s t : Shared A} {o : Option A}
      → Inv v s
      → Step v s t
      → get clone s.shot ≡ cloned o
      → get clone t.shot ≡ cloned o
  unfolding get
  get-Step clone v h (lock i p q) e = e
  get-Step clone v h (already i p q) e = e
  get-Step clone v h (fresh i p q) e = e
  get-Step clone v h (store i p) e = e
  get-Step clone v h (refuse i p) e = e
  get-Step clone v h (write i p) e = ground (arith, h.facts i)
  get-Step clone v h (announce i p) e = ground (arith, h.facts i)
  get-Step clone v h (mark i p) e = e
  get-Step clone v h (unlock i b p) e = e

  -- A read that found a value finds the same value in every later state.
  get-Reach :
      (clone : A → Option A) (v : ℕ → A) (id : ℕ) {s t : Shared A} {o : Option A}
      → Reach v (initial id) s
      → Reach v s t
      → get clone s.shot ≡ cloned o
      → get clone t.shot ≡ cloned o
  get-Reach clone v id r here e = e
  get-Reach clone v id r (next q st) e =
      get-Step clone v (Reach-Inv v (Reach-Inv v (initial-Inv v id) r) q) st
        (get-Reach clone v id r q e)

  -- However the threads interleave: a value that a thread reads at some moment, without the lock, is
  -- stored in the row by then, and every read at any later moment finds this value again.
  pub get_settles :
      (clone : A → Option A) (v : ℕ → A) (id : ℕ) {s t : Shared A} {o : Option A}
      → Reach v (initial id) s
      → Reach v s t
      → get clone s.shot ≡ cloned o
      → ((w : A) × (s.row ≡ some w) × (o ≡ clone w)) × (get clone t.shot ≡ cloned o)
  get_settles clone v id {o = o} r later e =
      (get_stored clone v id o r e, get-Reach clone v id r later e)

  -- However the threads interleave: once a thread is told that it completed the oneshot, every read is
  -- of the value that it brought, the row holds that value, and any thread that is told so is this one.
  pub complete_with_once :
      (clone : A → Option A) (v : ℕ → A) (id i j : ℕ) {t : Shared A}
      → Reach v (initial id) t
      → t.pc i ≡ finished true
      → t.pc j ≡ finished true
      → (get clone t.shot ≡ cloned (clone (v i))) × (t.row ≡ some (v i)) × (j ≡ i)
  complete_with_once clone v id i j r p q =
      let (reads, row) = complete_with_wins clone v id i r p in
      (reads, row, complete_with_race v id i j r p q)
