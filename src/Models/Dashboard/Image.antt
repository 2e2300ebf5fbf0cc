-- ===== src/Models/Dashboard/Image.antt =====
-- dashboard.rs, `impl DBTable for Image`.
use laas_reflab.Prelude.{ℕ, ◌≡◌, arith, String, Bool, true, Option, some, List, [], ◌∷◌}
use laas_reflab.Models.Rows.{
  uuid, varchar, boolean, uuids, uuid_type, varchar_type, boolean_type, uuid_array, Column, ◌>>=◌,
  Row, accepts, stored, get_uuid, get_text, get_bool, get_uuids, Keyed,
}

pub record Image : Type 0 where
  pub id : ℕ
  pub owner : String
  pub name : String
  pub deleted : Bool
  pub cobbler_name : String
  pub public : Bool
  pub flavors : List ℕ

abbrev pub columns : List Column
columns =
    record { name = "id"; kind = uuid_type; not_null = true }
    ∷ record { name = "owner"; kind = varchar_type; not_null = true }
    ∷ record { name = "name"; kind = varchar_type; not_null = true }
    ∷ record { name = "deleted"; kind = boolean_type; not_null = true }
    ∷ record { name = "cobbler_name"; kind = varchar_type; not_null = true }
    ∷ record { name = "public"; kind = boolean_type; not_null = true }
    ∷ record { name = "flavors"; kind = uuid_array; not_null = true }
    ∷ []

module _ {J : Type 0} where
  abbrev pub to_rowlike : Image → Option (Row J)
  to_rowlike i = some (
      ("id", uuid i.id)
      ∷ ("owner", varchar i.owner)
      ∷ ("name", varchar i.name)
      ∷ ("deleted", boolean i.deleted)
      ∷ ("cobbler_name", varchar i.cobbler_name)
      ∷ ("public", boolean i.public)
      ∷ ("flavors", uuids i.flavors)
      ∷ [])

  abbrev pub from_row : Row J → Option Image
  from_row row = do
    id ← get_uuid "id" row
    owner ← get_text "owner" row
    name ← get_text "name" row
    deleted ← get_bool "deleted" row
    cobbler_name ← get_text "cobbler_name" row
    public ← get_bool "public" row
    flavors ← get_uuids "flavors" row
    some (record {
      id = id;
      owner = owner;
      name = name;
      deleted = deleted;
      cobbler_name = cobbler_name;
      public = public;
      flavors = flavors;
    })

  pub accepts-columns :
      (i : Image) (row : Row J) → to_rowlike i ≡ some row → accepts columns row ≡ true
  accepts-columns i row e = ground arith

  pub row-Keyed : (i : Image) (row : Row J) → to_rowlike i ≡ some row → Keyed columns row i.id
  row-Keyed i row e = record {
    all = ground arith;
    again = ground arith;
    key = ground arith;
    one = ground arith;
  }

  pub from_row-stored :
      (i : Image) (row : Row J) → to_rowlike i ≡ some row → from_row (stored columns row) ≡ some i
  from_row-stored i row e = ground (arith)
