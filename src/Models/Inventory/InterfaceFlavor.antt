-- ===== src/Models/Inventory/InterfaceFlavor.antt =====
-- inventory.rs, `impl DBTable for InterfaceFlavor`.
use laas_reflab.Prelude.{ℕ, ◌≡◌, arith, String, true, Option, some, List, [], ◌∷◌}
use laas_reflab.Models.Rows.{
  uuid, varchar, json, uuid_type, varchar_type, jsonb_type, Column, ◌>>=◌, >>=-eq-some, Codec,
  RoundTrips, Row, accepts, stored, get_uuid, get_text, get_json, Keyed,
}
use laas_reflab.Models.Inventory.{DataValue, CardType}

pub record InterfaceFlavor : Type 0 where
  pub id : ℕ
  pub on_flavor : ℕ
  pub name : String
  pub speed : DataValue
  pub cardtype : CardType

abbrev pub columns : List Column
columns =
    record { name = "id"; kind = uuid_type; not_null = true }
    ∷ record { name = "on_flavor"; kind = uuid_type; not_null = true }
    ∷ record { name = "name"; kind = varchar_type; not_null = true }
    ∷ record { name = "speed"; kind = jsonb_type; not_null = true }
    ∷ record { name = "cardtype"; kind = jsonb_type; not_null = true }
    ∷ []

module _ {J : Type 0} (values : Codec J DataValue) (card_types : Codec J CardType) where
  abbrev pub to_rowlike : InterfaceFlavor → Option (Row J)
  to_rowlike i = do
    speed ← values.to_value i.speed
    cardtype ← card_types.to_value i.cardtype
    some (
        ("id", uuid i.id)
        ∷ ("on_flavor", uuid i.on_flavor)
        ∷ ("name", varchar i.name)
        ∷ ("speed", json speed)
        ∷ ("cardtype", json cardtype)
        ∷ [])

  abbrev pub from_row : Row J → Option InterfaceFlavor
  from_row row = do
    id ← get_uuid "id" row
    on_flavor ← get_uuid "on_flavor" row
    name ← get_text "name" row
    speed_json ← get_json "speed" row
    speed ← values.from_value speed_json
    cardtype_json ← get_json "cardtype" row
    cardtype ← card_types.from_value cardtype_json
    some
        (record { id = id; on_flavor = on_flavor; name = name; speed = speed; cardtype = cardtype })

  pub accepts-columns :
      (i : InterfaceFlavor) (row : Row J) → to_rowlike i ≡ some row → accepts columns row ≡ true
  accepts-columns i row e =
      let (j1, q1, e1) = >>=-eq-some (values.to_value i.speed) _ e in
      let (j2, q2, e2) = >>=-eq-some (card_types.to_value i.cardtype) _ e1 in ground arith

  pub row-Keyed :
      (i : InterfaceFlavor) (row : Row J) → to_rowlike i ≡ some row → Keyed columns row i.id
  row-Keyed i row e =
      let (j1, q1, e1) = >>=-eq-some (values.to_value i.speed) _ e in
      let (j2, q2, e2) = >>=-eq-some (card_types.to_value i.cardtype) _ e1 in
      record { all = ground arith; again = ground arith; key = ground arith; one = ground arith }

  pub from_row-stored :
      RoundTrips values
      → RoundTrips card_types
      → (i : InterfaceFlavor) (row : Row J) → to_rowlike i ≡ some row
      → from_row (stored columns row) ≡ some i
  from_row-stored r_values r_card_types i row e =
      let (j1, q1, e1) = >>=-eq-some (values.to_value i.speed) _ e in
      let (j2, q2, e2) = >>=-eq-some (card_types.to_value i.cardtype) _ e1 in
      ground (arith, r_values i.speed j1 q1, r_card_types i.cardtype j2 q2)
