-- ===== src/Dal/Table/Effects.antt =====
-- lib.rs, `DBTable`: what the calls that change a table mean for the list of its models.
use laas_reflab.Prelude.{
  ℕ, ◌≡◌, refl, sym, subst, arith, Bool, false, not, ◌||◌, Option, none, some, List, [], ◌∷◌, ◌++◌,
  ◌==◌, any, select, Bool-cases, inl, inr, if◌then◌else◌, ==_iff,
}
use laas_reflab.Dal.Table.{DbTable}

-- A call of one of the methods that change a table.
pub data Call (A : Type 0) : Type 0 where
  inserts updates upserts deletes : A → Call A

module _ {A : Type 0} where
  -- What it is called with.
  abbrev pub argument : Call A → A
  argument (inserts a) = a
  argument (updates a) = a
  argument (upserts a) = a
  argument (deletes a) = a

module _ {J A : Type 0} (T : DbTable J A) where
  abbrev pub present : ℕ → List A → Bool
  present i ms = any (λ a. T.id a == i) ms

  abbrev pub find : ℕ → List A → Option A
  find i [] = none
  find i (a ∷ ms) = if T.id a == i then some a else find i ms

  abbrev pub Distinct : List A → Type 0
  Distinct [] = Unit {0}
  Distinct (a ∷ ms) = (present (T.id a) ms ≡ false) × Distinct ms

  abbrev pub replaced : A → List A → List A
  replaced a [] = []
  replaced a (b ∷ bs) = (if T.id b == T.id a then a else b) ∷ replaced a bs

  abbrev pub without : ℕ → List A → List A
  without i ms = select (λ a. not (T.id a == i)) ms

  -- What a call that succeeds does to the models of the table. An upsert of a model that is there does
  -- nothing.
  abbrev pub effect : Call A → List A → List A
  effect (inserts a) ms = ms ++ a ∷ []
  effect (updates a) ms = replaced a ms
  effect (upserts a) ms = if present (T.id a) ms then ms else ms ++ a ∷ []
  effect (deletes a) ms = without (T.id a) ms

  abbrev pub effects : List (Call A) → List A → List A
  effects [] ms = ms
  effects (c ∷ cs) ms = effects cs (effect c ms)

  pub present-append :
      (i : ℕ) (ms : List A) (a : A) → present i (ms ++ a ∷ []) ≡ (present i ms || (T.id a == i))
  present-append i [] a = ground arith
  present-append i (b ∷ ms) a = ground (arith, present-append i ms a)

  pub Distinct-append :
      (ms : List A) (a : A) → Distinct ms → present (T.id a) ms ≡ false → Distinct (ms ++ a ∷ [])
  Distinct-append [] a d p = (refl, tt)
  Distinct-append (b ∷ ms) a (q, d) p = (
    ground
        (arith, present-append (T.id b) ms a, ==_iff (T.id a) (T.id b), ==_iff (T.id b) (T.id a)),
    Distinct-append ms a d (ground arith),
  )

  pub present-replaced : (i : ℕ) (a : A) (ms : List A) → present i (replaced a ms) ≡ present i ms
  present-replaced i a [] = refl
  present-replaced i a (b ∷ ms) = ground (arith, present-replaced i a ms, ==_iff (T.id b) (T.id a))

  pub Distinct-replaced : (a : A) (ms : List A) → Distinct ms → Distinct (replaced a ms)
  Distinct-replaced a [] d = tt
  Distinct-replaced a (b ∷ ms) (q, d) = (
    ground (arith, present-replaced (T.id b) a ms, ==_iff (T.id b) (T.id a)),
    Distinct-replaced a ms d,
  )

  pub present-without :
      (i j : ℕ) (ms : List A) → present i ms ≡ false → present i (without j ms) ≡ false
  present-without i j [] h = refl
  present-without i j (b ∷ ms) h = ground (arith, present-without i j ms)

  pub Distinct-without : (j : ℕ) (ms : List A) → Distinct ms → Distinct (without j ms)
  Distinct-without j [] d = tt
  Distinct-without j (b ∷ ms) (q, d) = elim (Bool-cases (T.id b == j)) [
    | inl t ↦
        subst (λ c. Distinct (if not c then b ∷ without j ms else without j ms)) (sym t)
          (Distinct-without j ms d)
    | inr f ↦
        subst (λ c. Distinct (if not c then b ∷ without j ms else without j ms)) (sym f)
          (present-without (T.id b) j ms q, Distinct-without j ms d)
  ]
