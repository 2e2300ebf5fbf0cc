-- ===== src/Models/Inventory/ExtraFlavorInfo.antt =====
-- inventory.rs, `impl DBTable for ExtraFlavorInfo`.
use laas_reflab.Prelude.{ℕ, ◌≡◌, arith, String, true, Option, some, List, [], ◌∷◌}
use laas_reflab.Models.Rows.{
  uuid, varchar, uuid_type, varchar_type, Column, ◌>>=◌, Row, accepts, stored, get_uuid, get_text,
  Keyed,
}

pub record ExtraFlavorInfo : Type 0 where
  pub id : ℕ
  pub for_flavor : ℕ
  pub extra_trait : String
  pub key : String
  pub value : String

abbrev pub columns : List Column
columns =
    record { name = "id"; kind = uuid_type; not_null = true }
    ∷ record { name = "for_flavor"; kind = uuid_type; not_null = true }
    ∷ record { name = "extra_trait"; kind = varchar_type; not_null = true }
    ∷ record { name = "key"; kind = varchar_type; not_null = true }
    ∷ record { name = "value"; kind = varchar_type; not_null = true }
    ∷ []

module _ {J : Type 0} where
  abbrev pub to_rowlike : ExtraFlavorInfo → Option (Row J)
  to_rowlike x = some (
      ("id", uuid x.id)
      ∷ ("for_flavor", uuid x.for_flavor)
      ∷ ("extra_trait", varchar x.extra_trait)
      ∷ ("key", varchar x.key)
      ∷ ("value", varchar x.value)
      ∷ [])

  abbrev pub from_row : Row J → Option ExtraFlavorInfo
  from_row row = do
    id ← get_uuid "id" row
    for_flavor ← get_uuid "for_flavor" row
    extra_trait ← get_text "extra_trait" row
    key ← get_text "key" row
    value ← get_text "value" row
    some (record {
      id = id;
      for_flavor = for_flavor;
      extra_trait = extra_trait;
      key = key;
      value = value;
    })

  pub accepts-columns :
      (x : ExtraFlavorInfo) (row : Row J) → to_rowlike x ≡ some row → accepts columns row ≡ true
  accepts-columns x row e = ground arith

  pub row-Keyed :
      (x : ExtraFlavorInfo) (row : Row J) → to_rowlike x ≡ some row → Keyed columns row x.id
  row-Keyed x row e = record {
    all = ground arith;
    again = ground arith;
    key = ground arith;
    one = ground arith;
  }

  pub from_row-stored :
      (x : ExtraFlavorInfo) (row : Row J)
      → to_rowlike x ≡ some row
      → from_row (stored columns row) ≡ some x
  from_row-stored x row e = ground (arith)
