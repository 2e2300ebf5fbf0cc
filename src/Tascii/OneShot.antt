-- ===== src/Tascii/OneShot.antt =====
-- src/tascii/src/oneshot.rs: a value that is completed at most once, stored before it is announced.
-- The database write inside `complete_with` and the clone inside `get` are code of others: the
-- write's success is an argument, and so is the clone, with `none` for a clone that panics.
pub mod Laws
pub mod Race
pub mod Tests
use laas_reflab.Prelude.{
  ℕ, String, Bool, true, false, Option, none, some, ◌==◌, if◌then◌else◌, is_some,
}

-- `TaskError` of src/tascii/src/workflows.rs.
pub data TaskError : Type 0 where
  timeout : TaskError
  panic : String → TaskError
  reason : String → TaskError
  internal : Option String → TaskError

-- `Result<T, TaskError>`, what a task's oneshot holds.
pub data Verdict {ℓ} (A : Type ℓ) : Type ℓ where
  ok : A → Verdict A
  err : TaskError → Verdict A

module _ {ℓ} (A : Type ℓ) where
  pub record StoredOneShot : Type ℓ where
    pub stored_as : ℕ
    pub value : Option A

  -- `none` in `value` is memory that was never written.
  pub record OneShot : Type ℓ where
    pub stored_as : ℕ
    pub completed : Bool
    pub announce : ℕ
    pub value : Option A

  -- A oneshot beside the row of the database that it is stored as.
  pub record Cell : Type ℓ where
    pub shot : OneShot
    pub row : StoredOneShot

  -- What a read of the value gives: nothing yet, a clone (or the panic of it), or a read of memory
  -- that was never written, which is undefined behaviour.
  pub data Read : Type ℓ where
    pending : Read
    cloned : Option A → Read
    undefined : Read

module _ {ℓ} {A : Type ℓ} where
  unfoldable pub into_oneshot : StoredOneShot A → OneShot A
  into_oneshot s = record {
    stored_as = s.stored_as;
    completed = is_some s.value;
    announce = if is_some s.value then 0 else 1;
    value = s.value;
  }

  -- `StoredOneShot::new` and `OneShot::new`: an empty row, and the oneshot over it.
  unfoldable pub new : ℕ → Cell A
  unfolding into_oneshot
  new id =
      let row : StoredOneShot A = record { stored_as = id; value = none } in
      record { shot = into_oneshot row; row = row }

  -- `StoredOneShot::store`: the update of the row, which the database may refuse.
  abbrev store : Bool → A → Cell A → Cell A
  store true v c = record c { row = record { stored_as = c.shot.stored_as; value = some v } }
  store false v c = c

  -- The part of `complete_with` under `if !*g`, once the row is stored.
  abbrev publish : A → Cell A → Cell A
  publish v c = record c {
    shot = record { stored_as = c.shot.stored_as; completed = true; announce = 0; value = some v };
  }

  -- `stored` says whether the database accepts the row.
  unfoldable pub complete_with : Bool → A → Cell A → Cell A × Bool
  complete_with stored v c =
      if c.shot.completed
      then (c, false)
      else if stored
      then (publish v (store stored v c), true)
      else (store stored v c, false)

  abbrev read_value : (A → Option A) → Option A → Read A
  read_value clone none = undefined
  read_value clone (some v) = cloned (clone v)

  unfoldable pub get : (A → Option A) → OneShot A → Read A
  get clone o = if o.announce == 1 then pending else read_value clone o.value

  -- `Drop for OneShot` reads the value to free it when the futex says that it is there.
  pub drop_reads : OneShot A → Option (Read A)
  drop_reads o = if o.announce == 0 then some (read_value some o.value) else none

-- `DynRunnable::status` of src/tascii/src/task_shim.rs with `TaskState` of task_runtime.rs.
pub data TaskState : Type 0 where
  ready failed done : TaskState

abbrev pub state_of {ℓ} : {A : Type ℓ} → Read (Verdict A) → TaskState
state_of pending = ready
state_of (cloned none) = ready
state_of (cloned (some (ok v))) = done
state_of (cloned (some (err e))) = failed
state_of undefined = ready

unfoldable pub status {ℓ} :
    {A : Type ℓ} → (Verdict A → Option (Verdict A)) → OneShot (Verdict A) → TaskState
unfolding get
status clone o = state_of (get clone o)
