-- ===== src/Dal/Table/Entries.antt =====
-- lib.rs, `DBTable`: the models that the rows of a table stand for.
use laas_reflab.Prelude.{
  ℕ, ◌≡◌, refl, sym, ap, subst, ◌∙◌, arith, Bool, true, false, not, Option, none, some, List, [],
  ◌∷◌, ◌++◌, ◌==◌, any, select, if◌then◌else◌, ==_iff,
}
use laas_reflab.Models.Rows.{uuid, Column, Row, column, filled, stored, Keyed}
use laas_reflab.Dal.Table.{DbTable, has_id, is_row, written, set_rows}
use laas_reflab.Dal.Table.Effects.{present, replaced, without}
use laas_reflab.Dal.Table.Columns.{written-stored, written-id}

-- What a model promises of its conversions: `Valid` limits the models, and `as_loaded` is what comes back.
pub record Lawful {J A : Type 0} (T : DbTable J A) (Valid : A → Type 0) (as_loaded : A → A)
    : Type 0 where
  pub keyed : (a : A) (row : Row J) → T.to_rowlike a ≡ some row → Keyed T.columns row (T.id a)
  pub loads :
      (a : A) (row : Row J)
      → Valid a
      → T.to_rowlike a ≡ some row
      → T.from_row (stored T.columns row) ≡ some (as_loaded a)

-- The row was written for the model.
pub record Entry {J A : Type 0} (T : DbTable J A) (Valid : A → Type 0) (row : Row J) (a : A)
    : Type 0 where
  pub rowlike : Row J
  pub converts : T.to_rowlike a ≡ some rowlike
  pub same : row ≡ stored T.columns rowlike
  pub full : filled T.columns row ≡ true
  pub valid : Valid a

module _ {J A : Type 0} (T : DbTable J A) (Valid : A → Type 0) where
  -- The rows stand for the models, one for one.
  abbrev pub Holds : List (Row J) → List A → Type 0
  Holds [] [] = Unit {0}
  Holds (row ∷ rows) (a ∷ ms) = Entry T Valid row a × Holds rows ms
  Holds [] (a ∷ ms) = ⊥
  Holds (row ∷ rows) [] = ⊥

  pub Holds-append :
      (rows : List (Row J)) (ms : List A) (row : Row J) (a : A)
      → Holds rows ms
      → Entry T Valid row a
      → Holds (rows ++ row ∷ []) (ms ++ a ∷ [])
  Holds-append [] [] row a h e = (e, tt)
  Holds-append (r ∷ rows) (b ∷ ms) row a (f, h) e = (f, Holds-append rows ms row a h e)
  Holds-append [] (b ∷ ms) row a h e = absurd h
  Holds-append (r ∷ rows) [] row a h e = absurd h

  set_rows-∷ :
      (cs : List Column) (i : ℕ) (new old : Row J) (rows : List (Row J)) {done : List (Row J)}
      → set_rows cs i new (old ∷ rows) ≡ some done
      → (rest : List (Row J)) × (set_rows cs i new rows ≡ some rest)
        × (done ≡ (if is_row i old then written cs new old else old) ∷ rest)
        × (is_row i old ≡ true → filled cs (written cs new old) ≡ true)
  set_rows-∷ cs i new old rows {done} q = go (set_rows cs i new rows) refl
    where
      go :
          (o : Option (List (Row J)))
          → set_rows cs i new rows ≡ o
          → (rest : List (Row J)) × (set_rows cs i new rows ≡ some rest)
            × (done ≡ (if is_row i old then written cs new old else old) ∷ rest)
            × (is_row i old ≡ true → filled cs (written cs new old) ≡ true)
      go none o = absurd (ground arith)
      go (some rest) o = (rest, o, ground arith, λ t. ground arith)

  module _ {as_loaded : A → A} (l : Lawful T Valid as_loaded) where
    pub Entry-id :
        (row : Row J) (a : A) → Entry T Valid row a → (i : ℕ) → is_row i row ≡ (T.id a == i)
    Entry-id row a e i =
        ap (λ r. is_row i r) e.same ∙ ap (has_id i) (l.keyed a e.rowlike e.converts).key

    pub Holds-present :
        (rows : List (Row J)) (ms : List A)
        → Holds rows ms
        → (i : ℕ) → any (is_row i) rows ≡ present T i ms
    Holds-present [] [] h i = refl
    Holds-present (r ∷ rows) (a ∷ ms) (e, h) i = cc (Entry-id r a e i, Holds-present rows ms h i)
    Holds-present [] (b ∷ ms) h i = absurd h
    Holds-present (r ∷ rows) [] h i = absurd h

    pub Holds-without :
        (rows : List (Row J)) (ms : List A)
        → Holds rows ms
        → (i : ℕ) → Holds (select (λ r. not (is_row i r)) rows) (without T i ms)
    Holds-without [] [] h i = tt
    Holds-without (r ∷ rows) (a ∷ ms) (e, h) i =
        subst
          (λ b.
            Holds
              (if not b
                then r ∷ select (λ r. not (is_row i r)) rows
                else select (λ r. not (is_row i r)) rows)
              (without T i (a ∷ ms)))
          (sym (Entry-id r a e i)) (go (T.id a == i) _ _ (Holds-without rows ms h i))
      where
        go :
            (b : Bool) (rest : List (Row J)) (others : List A)
            → Holds rest others
            → Holds (if not b then r ∷ rest else rest) (if not b then a ∷ others else others)
        go true rest others t = t
        go false rest others t = (e, t)
    Holds-without [] (b ∷ ms) h i = absurd h
    Holds-without (r ∷ rows) [] h i = absurd h

    -- An `UPDATE` with the row of a model leaves the model in the place of what had its id.
    pub Holds-set_rows :
        (rows : List (Row J)) (ms : List A) (a : A) (new : Row J) {done : List (Row J)}
        → Holds rows ms
        → Valid a
        → T.to_rowlike a ≡ some new
        → set_rows T.columns (T.id a) new rows ≡ some done
        → Holds done (replaced T a ms)
    Holds-set_rows [] [] a new {done} h v e q =
        let none_left : [] ≡ done = ground arith in subst (λ d. Holds d []) none_left tt
    Holds-set_rows (r ∷ rows) (b ∷ ms) a new {done} (f, h) v e q =
        let (rest, again, made, full) = set_rows-∷ T.columns (T.id a) new r rows q in
        let changed : written T.columns new r ≡ stored T.columns new =
          written-stored T.columns new r (l.keyed a new e).all in
        subst (λ d. Holds d (replaced T a (b ∷ ms))) (sym made)
          (
            go (is_row (T.id a) r) (Entry-id r b f (T.id a)) (λ t. record {
              rowlike = new;
              converts = e;
              same = changed;
              full = full t;
              valid = v;
            }),
            Holds-set_rows rows ms a new h v e again,
          )
      where
        go :
            (c : Bool)
            → c ≡ (T.id b == T.id a)
            → (c ≡ true → Entry T Valid (written T.columns new r) a)
            → Entry T Valid
                (if c then written T.columns new r else r)
                (if T.id b == T.id a then a else b)
        go true q w =
            subst (λ c. Entry T Valid (written T.columns new r) (if c then a else b)) q (w refl)
        go false q w = subst (λ c. Entry T Valid r (if c then a else b)) q f
    Holds-set_rows [] (b ∷ ms) a new h v e q = absurd h
    Holds-set_rows (r ∷ rows) [] a new h v e q = absurd h

    -- An `UPDATE` of the id alone changes nothing.
    pub set_rows-id :
        (rows : List (Row J)) (ms : List A)
        → Holds rows ms
        → (i : ℕ) → set_rows T.columns i (("id", uuid i) ∷ []) rows ≡ some rows
    set_rows-id [] [] h i = refl
    set_rows-id (r ∷ rows) (a ∷ ms) (e, h) i =
        let own : (T.id a == i) ≡ true → column "id" r ≡ some (uuid i) = λ t.
          ap (column "id") e.same
          ∙ (l.keyed a e.rowlike e.converts).key
          ∙ ap (λ n. some (uuid n)) ((==_iff (T.id a) i).0 t) in
        let kept : stored T.columns r ≡ r =
          ap (stored T.columns) e.same ∙ (l.keyed a e.rowlike e.converts).again ∙ sym e.same in
        let only : (T.id a == i) ≡ true → written T.columns (("id", uuid i) ∷ []) r ≡ r =
          λ t. written-id T.columns r (uuid i) (own t) ∙ kept in
        ground (arith, Entry-id r a e i, set_rows-id rows ms h i, e.full, only)
    set_rows-id [] (b ∷ ms) h i = absurd h
    set_rows-id (r ∷ rows) [] h i = absurd h
