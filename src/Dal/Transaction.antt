-- ===== src/Dal/Transaction.antt =====
-- src/dal/src/lib.rs: `EasyTransaction`, over a database of any kind. A transaction that is dropped
-- before it ends is undone by the driver. The connection does not fail.
pub mod Keeps
use laas_reflab.Prelude.{ℕ, ◌≡◌, refl, Bool, true, false, String, Option, none, some, arith}

-- A result with the error's message, or a panic.
pub data Res {ℓ} (A : Type ℓ) : Type ℓ where
  ok : A → Res A
  err : String → Res A
  panicked : Res A

-- What a connection sees: the tables, and how many ids and times were drawn so far. A draw is not
-- undone with the transaction that made it.
pub record Session (D : Type 0) : Type 0 where
  pub db : D
  pub draws : ℕ

abbrev pub M : Type 0 → Type 0 → Type 0
M D A = Session D → Res A × Session D

module _ {D A B : Type 0} where
  abbrev pub and_then : (A → M D B) → Res A × Session D → Res B × Session D
  and_then f (ok a, s) = f a s
  and_then f (err e, s) = (err e, s)
  and_then f (panicked, s) = (panicked, s)

  infixl 5 ◌>>=◌
  abbrev pub ◌>>=◌ : M D A → (A → M D B) → M D B
  ◌>>=◌ m f s = and_then f (m s)

module _ {D A : Type 0} where
  infixl 5 ◌>>◌
  abbrev pub ◌>>◌ : M D (Unit {0}) → M D A → M D A
  m >> k = m >>= λ _. k

  abbrev pub pure : A → M D A
  pure a s = (ok a, s)

  abbrev pub fail : String → M D A
  fail e s = (err e, s)

  abbrev pub panics : M D A
  panics s = (panicked, s)

  -- `.ok_or(e)` and `?`.
  abbrev pub ok_or : String → Option A → M D A
  ok_or e none = fail e
  ok_or e (some a) = pure a

  -- `.expect(…)` and `.unwrap()` on a result.
  abbrev pub unwrap_result : Res A × Session D → Res A × Session D
  unwrap_result (ok a, s) = (ok a, s)
  unwrap_result (err e, s) = (panicked, s)
  unwrap_result (panicked, s) = (panicked, s)

  abbrev pub expect : M D A → M D A
  expect m s = unwrap_result (m s)

  -- `match m.await { Ok(v) => …, Err(e) => … }`.
  abbrev pub caught : Res A × Session D → Res (Res A) × Session D
  caught (ok a, s) = (ok (ok a), s)
  caught (err e, s) = (ok (err e), s)
  caught (panicked, s) = (panicked, s)

  abbrev pub attempt : M D A → M D (Res A)
  attempt m s = caught (m s)

-- The state in which `inner.commit()` leaves the outer transaction, and a drop of `inner` does.
module _ {D : Type 0} where
  abbrev pub commit : Session D → Session D → Session D
  commit before after = after

  -- `EasyTransaction::rollback` ends in `inner.commit()`.
  abbrev pub rollback : Session D → Session D → Session D
  rollback before after = commit before after

  abbrev pub dropped : Session D → Session D → Session D
  dropped before after = record before { draws = after.draws }

  abbrev pub end_with : Bool → Session D → Session D → Session D
  end_with true before after = commit before after
  end_with false before after = rollback before after

-- How the code that opened a transaction ends it, with what it goes on to return.
pub data Ending (A : Type 0) : Type 0 where
  commits rolls_back drops : Res A → Ending A

module _ {D A : Type 0} where
  abbrev pub close : Session D → Res (Ending A) × Session D → Res A × Session D
  close s (ok (commits r), s') = (r, commit s s')
  close s (ok (rolls_back r), s') = (r, rollback s s')
  close s (ok (drops r), s') = (r, dropped s s')
  close s (err e, s') = (err e, dropped s s')
  close s (panicked, s') = (panicked, dropped s s')

  -- `t.easy_transaction()` with the code that follows it: an early `?` or a panic drops it.
  abbrev pub transaction : M D (Ending A) → M D A
  transaction body s = close s (body s)

module _ {D A B : Type 0} where
  pub >>=-eq-ok :
      (m : M D A) (f : A → M D B) (s : Session D) {b : B} {s' : Session D}
      → (m >>= f) s ≡ (ok b, s')
      → (a : A) × (u : Session D) × (m s ≡ (ok a, u)) × (f a u ≡ (ok b, s'))
  >>=-eq-ok m f s {b} {s'} e = go (m s) refl e
    where
      go :
          (r : Res A × Session D)
          → m s ≡ r
          → and_then f r ≡ (ok b, s')
          → (a : A) × (u : Session D) × (m s ≡ (ok a, u)) × (f a u ≡ (ok b, s'))
      go (ok a, u) h q = (a, u, h, q)
      go (err x, u) h q = absurd (cc)
      go (panicked, u) h q = absurd (cc)

module _ {D A : Type 0} where
  pub pure-eq-ok :
      (a : A) (s : Session D) {b : A} {s' : Session D} → pure a s ≡ (ok b, s') → (a ≡ b) × (s' ≡ s)
  pure-eq-ok a s e = ground arith

  pub ok_or-eq-ok :
      (x : String) (o : Option A) (s : Session D) {b : A} {s' : Session D}
      → ok_or x o s ≡ (ok b, s')
      → (o ≡ some b) × (s' ≡ s)
  ok_or-eq-ok x none s e = absurd (ground arith)
  ok_or-eq-ok x (some a) s e = ground arith

  pub expect-eq-ok :
      (m : M D A) (s : Session D) {b : A} {s' : Session D}
      → expect m s ≡ (ok b, s')
      → m s ≡ (ok b, s')
  expect-eq-ok m s {b} {s'} e = go (m s) e
    where
      go : (r : Res A × Session D) → unwrap_result r ≡ (ok b, s') → r ≡ (ok b, s')
      go (ok a, u) q = q
      go (err x, u) q = absurd (ground arith)
      go (panicked, u) q = absurd (ground arith)

  pub attempt-eq-ok :
      (m : M D A) (s : Session D) {b : A} {s' : Session D}
      → attempt m s ≡ (ok (ok b), s')
      → m s ≡ (ok b, s')
  attempt-eq-ok m s {b} {s'} e = go (m s) e
    where
      go : (r : Res A × Session D) → caught r ≡ (ok (ok b), s') → r ≡ (ok b, s')
      go (ok a, u) q = ground arith
      go (err x, u) q = absurd (ground arith)
      go (panicked, u) q = absurd (ground arith)

  pub transaction-eq-ok :
      (body : M D (Ending A)) (s : Session D) {a : A} {s' : Session D}
      → transaction body s ≡ (ok a, s')
      → (how : Ending A) × (u : Session D) × (body s ≡ (ok how, u))
        × (close s (ok how, u) ≡ (ok a, s'))
  transaction-eq-ok body s {a} {s'} e = go (body s) refl e
    where
      go :
          (r : Res (Ending A) × Session D)
          → body s ≡ r
          → close s r ≡ (ok a, s')
          → (how : Ending A) × (u : Session D) × (body s ≡ (ok how, u))
            × (close s (ok how, u) ≡ (ok a, s'))
      go (ok how, u) h q = (how, u, h, q)
      go (err x, u) h q = absurd (ground arith)
      go (panicked, u) h q = absurd (ground arith)
