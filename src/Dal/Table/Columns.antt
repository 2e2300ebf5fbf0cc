-- ===== src/Dal/Table/Columns.antt =====
-- lib.rs, `DBTable::update` and `upsert`: what `SET` does to a row, column by column.
use text.Mathlib.Text.{◌==◌ as str_eq}
use text.Mathlib.TextEquality.{eq_iff}
use laas_reflab.Prelude.{◌≡◌, refl, subst, arith, true, some, List, [], ◌∷◌, Bool-cases, inl, inr}
use laas_reflab.Models.Rows.{Value, Column, Row, column, filled, stored, names_all}
use laas_reflab.Dal.Table.{written}

module _ {J : Type 0} where
  pub written-stored :
      (cs : List Column) (row old : Row J)
      → names_all cs row ≡ true
      → written cs row old ≡ stored cs row
  written-stored [] row old h = refl
  written-stored (c ∷ cs) row old h = ground (arith, written-stored cs row old)

  -- A `SET` of the id alone, to what it is.
  pub written-id :
      (cs : List Column) (old : Row J) (v : Value J)
      → column "id" old ≡ some v
      → written cs (("id", v) ∷ []) old ≡ stored cs old
  written-id [] old v h = refl
  written-id (c ∷ cs) old v h = elim (Bool-cases (str_eq "id" c.name)) [
    | inl t ↦
        let same : "id" ≡ c.name = (eq_iff "id" c.name).0 t in
        let there : column c.name old ≡ some v = subst (λ n. column n old ≡ some v) same h in
        ground (arith, written-id cs old v h)
    | inr f ↦ ground (arith, written-id cs old v h)
  ]

  pub filled-stored :
      (cs : List Column) (r t : Row J) → stored cs r ≡ stored cs t → filled cs r ≡ filled cs t
  filled-stored [] r t h = refl
  filled-stored (c ∷ cs) r t h = ground (arith, filled-stored cs r t)
