-- ===== src/Models/Dashboard/Template.antt =====
-- dashboard.rs, `impl DBTable for Template`.
use laas_reflab.Prelude.{ℕ, ◌≡◌, arith, String, Bool, true, false, Option, some, List, [], ◌∷◌}
use laas_reflab.Models.Rows.{
  uuid, varchar, boolean, json, uuids, uuid_type, varchar_type, boolean_type, jsonb_type,
  uuid_array, Column, ◌>>=◌, >>=-eq-some, Codec, RoundTrips, Row, accepts, stored, nullable,
  get_uuid, get_text, get_bool, get_json, get_uuids, get_text?, Keyed,
}
use laas_reflab.Models.Dashboard.{HostConfig}

pub record Template : Type 0 where
  pub id : ℕ
  pub lab_name : String
  pub name : String
  pub deleted : Bool
  pub description : String
  pub owner : Option String
  pub public : Bool
  pub networks : List ℕ
  pub hosts : List HostConfig

abbrev pub columns : List Column
columns =
    record { name = "id"; kind = uuid_type; not_null = true }
    ∷ record { name = "owner"; kind = varchar_type; not_null = false }
    ∷ record { name = "name"; kind = varchar_type; not_null = true }
    ∷ record { name = "deleted"; kind = boolean_type; not_null = true }
    ∷ record { name = "public"; kind = boolean_type; not_null = true }
    ∷ record { name = "lab_name"; kind = varchar_type; not_null = true }
    ∷ record { name = "description"; kind = varchar_type; not_null = true }
    ∷ record { name = "networks"; kind = uuid_array; not_null = true }
    ∷ record { name = "hosts"; kind = jsonb_type; not_null = true }
    ∷ []

module _ {J : Type 0} (configs : Codec J (List HostConfig)) where
  abbrev pub to_rowlike : Template → Option (Row J)
  to_rowlike t = do
    hosts ← configs.to_value t.hosts
    some (
        ("id", uuid t.id)
        ∷ ("owner", nullable varchar t.owner)
        ∷ ("name", varchar t.name)
        ∷ ("deleted", boolean t.deleted)
        ∷ ("public", boolean t.public)
        ∷ ("lab_name", varchar t.lab_name)
        ∷ ("description", varchar t.description)
        ∷ ("networks", uuids t.networks)
        ∷ ("hosts", json hosts)
        ∷ [])

  abbrev pub from_row : Row J → Option Template
  from_row row = do
    id ← get_uuid "id" row
    lab_name ← get_text "lab_name" row
    name ← get_text "name" row
    deleted ← get_bool "deleted" row
    description ← get_text "description" row
    owner ← get_text? "owner" row
    public ← get_bool "public" row
    networks ← get_uuids "networks" row
    hosts_json ← get_json "hosts" row
    hosts ← configs.from_value hosts_json
    some (record {
      id = id;
      lab_name = lab_name;
      name = name;
      deleted = deleted;
      description = description;
      owner = owner;
      public = public;
      networks = networks;
      hosts = hosts;
    })

  pub accepts-columns :
      (t : Template) (row : Row J) → to_rowlike t ≡ some row → accepts columns row ≡ true
  accepts-columns t row e =
      let (j1, q1, e1) = >>=-eq-some (configs.to_value t.hosts) _ e in ground arith

  pub row-Keyed : (t : Template) (row : Row J) → to_rowlike t ≡ some row → Keyed columns row t.id
  row-Keyed t row e =
      let (j1, q1, e1) = >>=-eq-some (configs.to_value t.hosts) _ e in
      record { all = ground arith; again = ground arith; key = ground arith; one = ground arith }

  pub from_row-stored :
      RoundTrips configs
      → (t : Template) (row : Row J) → to_rowlike t ≡ some row
      → from_row (stored columns row) ≡ some t
  from_row-stored r_configs t row e =
      let (j1, q1, e1) = >>=-eq-some (configs.to_value t.hosts) _ e in
      ground (arith, r_configs t.hosts j1 q1)
