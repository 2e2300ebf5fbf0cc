-- ===== src/Models/Dashboard/NetworkAssignmentMap.antt =====
-- dashboard.rs, `impl DBTable for NetworkAssignmentMap`. A map is a list of its pairs; the texts of ids,
-- of the uuid crate, are parameters.
use laas_reflab.Prelude.{ℕ, ◌≡◌, refl, arith, String, true, Option, none, some, List, [], ◌∷◌}
use laas_reflab.Models.Rows.{
  uuid, json, uuid_type, jsonb_type, Column, ◌>>=◌, >>=-eq-some, Codec, RoundTrips, Row, accepts,
  stored, get_uuid, get_json, Keyed,
}

pub record NetworkAssignmentMap : Type 0 where
  pub id : ℕ
  pub networks : List (ℕ × ℕ)

abbrev pub columns : List Column
columns =
    record { name = "id"; kind = uuid_type; not_null = true }
    ∷ record { name = "networks"; kind = jsonb_type; not_null = true }
    ∷ []

-- `ID::to_string` and `ID::from_str`.
pub record UuidText : Type 0 where
  pub print : ℕ → String
  pub parse : String → Option ℕ

abbrev pub ReadsBack : UuidText → Type 0
ReadsBack ids = (n : ℕ) → ids.parse (ids.print n) ≡ some n

module _ {J : Type 0} (ids : UuidText) (maps : Codec J (List (String × String))) where
  abbrev pub as_texts : List (ℕ × ℕ) → List (String × String)
  as_texts [] = []
  as_texts ((k, v) ∷ more) = (ids.print k, ids.print v) ∷ as_texts more

  -- The `filter_map`, which leaves out what does not parse.
  abbrev pub as_ids : List (String × String) → List (ℕ × ℕ)
  as_ids [] = []
  as_ids ((k, v) ∷ more) =
      let rest = as_ids more in
      elim (ids.parse k) [
        | some network ↦ elim (ids.parse v) [ some vlan ↦ (network, vlan) ∷ rest | none ↦ rest ]
        | none ↦ rest
      ]

  abbrev pub to_rowlike : NetworkAssignmentMap → Option (Row J)
  to_rowlike m = do
    networks ← maps.to_value (as_texts m.networks)
    some (("id", uuid m.id) ∷ ("networks", json networks) ∷ [])

  abbrev pub from_row : Row J → Option NetworkAssignmentMap
  from_row row = do
    networks_json ← get_json "networks" row
    networks ← maps.from_value networks_json
    id ← get_uuid "id" row
    some (record { id = id; networks = as_ids networks })

  as_ids-as_texts : ReadsBack ids → (ns : List (ℕ × ℕ)) → as_ids (as_texts ns) ≡ ns
  as_ids-as_texts r [] = refl
  as_ids-as_texts r ((k, v) ∷ more) = ground (arith, r k, r v, as_ids-as_texts r more)

  pub accepts-columns :
      (m : NetworkAssignmentMap) (row : Row J)
      → to_rowlike m ≡ some row
      → accepts columns row ≡ true
  accepts-columns m row e =
      let (j, q, e₁) = >>=-eq-some (maps.to_value (as_texts m.networks)) _ e in ground arith

  pub row-Keyed :
      (m : NetworkAssignmentMap) (row : Row J) → to_rowlike m ≡ some row → Keyed columns row m.id
  row-Keyed m row e =
      let (j, q, e₁) = >>=-eq-some (maps.to_value (as_texts m.networks)) _ e in
      record { all = ground arith; again = ground arith; key = ground arith; one = ground arith }

  pub from_row-stored :
      ReadsBack ids
      → RoundTrips maps
      → (m : NetworkAssignmentMap) (row : Row J) → to_rowlike m ≡ some row
      → from_row (stored columns row) ≡ some m
  from_row-stored ri rm m row e =
      let (j, q, e₁) = >>=-eq-some (maps.to_value (as_texts m.networks)) _ e in
      ground (arith, rm (as_texts m.networks) j q, as_ids-as_texts ri m.networks)
