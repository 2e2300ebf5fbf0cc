-- ===== src/Dal/Table.antt =====
-- src/dal/src/lib.rs: the default methods of `DBTable`, on the rows of one table. Of Postgres there are
-- the types and `NOT NULL` of the columns, and the primary key; `holds` stands for all other constraints,
-- asked of the rows that a statement would leave.
pub mod Columns
pub mod Effects
pub mod Entries
pub mod Refinement
pub mod Calls
use text.Mathlib.Text.{◌==◌ as str_eq}
use laas_reflab.Prelude.{
  ℕ, ◌≡◌, Bool, true, false, not, ◌&&◌, Option, none, some, List, [], ◌∷◌, ◌++◌, ◌==◌, any, select,
  if◌then◌else◌,
}
use laas_reflab.Dal.Transaction.{Session, M, ◌>>=◌, pure, fail, ok_or}
use laas_reflab.Models.Rows.{
  Value, uuid, Column, Row, column, given, known, filled, accepts, stored, update_cols,
}

pub record DbTable (J A : Type 0) : Type 0 where
  pub columns : List Column
  pub id : A → ℕ
  pub to_rowlike : A → Option (Row J)
  pub from_row : Row J → Option A

module _ {J : Type 0} where
  abbrev pub has_id : ℕ → Option (Value J) → Bool
  has_id id (some (uuid i)) = i == id
  has_id id v = false

  -- `WHERE id = …`.
  abbrev pub is_row : ℕ → Row J → Bool
  is_row id row = has_id id (column "id" row)

  abbrev pub written_value : Option (Value J) → Value J → Value J
  written_value (some v) old = v
  written_value none old = old

  -- `SET` of the columns that the new row gives.
  abbrev pub written : List Column → Row J → Row J → Row J
  written [] new old = []
  written (c ∷ cs) new old =
      (c.name, written_value (column c.name new) (given old c)) ∷ written cs new old

  -- `UPDATE … SET … WHERE id = …`.
  abbrev pub set_rows : List Column → ℕ → Row J → List (Row J) → Option (List (Row J))
  set_rows cs id new [] = some []
  set_rows cs id new (old ∷ rows) =
      let rest = set_rows cs id new rows in
      elim rest [
        | none ↦ none
        | some done ↦
            if is_row id old
            then (if filled cs (written cs new old) then some (written cs new old ∷ done) else none)
            else some (old ∷ done)
      ]

  abbrev pub query_one : List (Row J) → M (List (Row J)) (Row J)
  query_one [] = fail "query returned an unexpected number of rows"
  query_one (row ∷ []) = pure row
  query_one (row ∷ more ∷ rows) = fail "query returned an unexpected number of rows"

  module _ {A : Type 0} (T : DbTable J A) where
    pub get : ℕ → M (List (Row J)) A
    get id s =
        (query_one (select (is_row id) s.db) >>= λ row.
        ok_or "the row does not convert" (T.from_row row))
          s

  module _ (holds : List (Row J) → Bool) where
    abbrev pub write : List (Row J) → M (List (Row J)) (Unit {0})
    write rows s = if holds rows then pure tt (record s { db = rows }) else fail "db error" s

    abbrev pub write_set : Option (List (Row J)) → M (List (Row J)) (Unit {0})
    write_set none = fail "db error"
    write_set (some rows) = write rows

    -- `INSERT`, of a row that has the id.
    abbrev pub insert_row : List Column → ℕ → Row J → M (List (Row J)) (Unit {0})
    insert_row cs id row s =
        if accepts cs row && not (any (is_row id) s.db)
        then write (s.db ++ stored cs row ∷ []) s
        else fail "db error" s

    abbrev pub update_rows : List Column → ℕ → Row J → M (List (Row J)) (Unit {0})
    update_rows cs id row s =
        if known cs row then write_set (set_rows cs id row s.db) s else fail "db error" s

    -- `INSERT … ON CONFLICT (id) DO UPDATE SET …`: the proposed row passes the columns in either case.
    abbrev pub upsert_row : List Column → ℕ → Row J → M (List (Row J)) (Unit {0})
    upsert_row cs id row s =
        if accepts cs row && any (is_row id) s.db
        then update_rows cs id (update_cols row) s
        else insert_row cs id row s

    module _ {A : Type 0} (T : DbTable J A) where
      unfoldable pub insert : A → M (List (Row J)) ℕ
      insert a = do
        row ← ok_or "the model does not convert" (T.to_rowlike a)
        done ← insert_row T.columns (T.id a) row
        pure (T.id a)

      unfoldable pub upsert : A → M (List (Row J)) ℕ
      upsert a = do
        row ← ok_or "the model does not convert" (T.to_rowlike a)
        done ← upsert_row T.columns (T.id a) row
        pure (T.id a)

      unfoldable pub update : A → M (List (Row J)) (Unit {0})
      update a = do
        row ← ok_or "the model does not convert" (T.to_rowlike a)
        update_rows T.columns (T.id a) row

      pub delete : A → M (List (Row J)) (Unit {0})
      delete a s = write (select (λ row. not (is_row (T.id a) row)) s.db) s
