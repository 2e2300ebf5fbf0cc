-- ===== src/Models/Dashboard/Instance.antt =====
-- dashboard.rs, `impl DBTable for Instance`, with the columns after both migrations. The values of `metadata` are JSON.
use laas_reflab.Prelude.{ℕ, ◌≡◌, arith, String, true, false, Option, some, List, [], ◌∷◌}
use laas_reflab.Models.Rows.{
  uuid, json, uuid_type, jsonb_type, Column, ◌>>=◌, >>=-eq-some, Codec, RoundTrips, Row, accepts,
  stored, nullable, get_uuid, get_json, get_uuid?, Keyed,
}
use laas_reflab.Models.Dashboard.{HostConfig}

pub record Instance (J : Type 0) : Type 0 where
  pub id : ℕ
  pub within_template : ℕ
  pub aggregate : ℕ
  pub network_data : ℕ
  pub linked_host : Option ℕ
  pub config : HostConfig
  pub metadata : List (String × J)

abbrev pub columns : List Column
columns =
    record { name = "id"; kind = uuid_type; not_null = true }
    ∷ record { name = "within_template"; kind = uuid_type; not_null = true }
    ∷ record { name = "aggregate"; kind = uuid_type; not_null = true }
    ∷ record { name = "config"; kind = jsonb_type; not_null = true }
    ∷ record { name = "network_data"; kind = uuid_type; not_null = true }
    ∷ record { name = "linked_host"; kind = uuid_type; not_null = false }
    ∷ record { name = "metadata"; kind = jsonb_type; not_null = true }
    ∷ []

module _ {J : Type 0} (configs : Codec J HostConfig) (maps : Codec J (List (String × J))) where
  abbrev pub to_rowlike : Instance J → Option (Row J)
  to_rowlike i = do
    config ← configs.to_value i.config
    metadata ← maps.to_value i.metadata
    some (
        ("id", uuid i.id)
        ∷ ("within_template", uuid i.within_template)
        ∷ ("aggregate", uuid i.aggregate)
        ∷ ("network_data", uuid i.network_data)
        ∷ ("linked_host", nullable uuid i.linked_host)
        ∷ ("config", json config)
        ∷ ("metadata", json metadata)
        ∷ [])

  abbrev pub from_row : Row J → Option (Instance J)
  from_row row = do
    id ← get_uuid "id" row
    within_template ← get_uuid "within_template" row
    aggregate ← get_uuid "aggregate" row
    network_data ← get_uuid "network_data" row
    linked_host ← get_uuid? "linked_host" row
    config_json ← get_json "config" row
    config ← configs.from_value config_json
    metadata_json ← get_json "metadata" row
    metadata ← maps.from_value metadata_json
    some (record {
      id = id;
      within_template = within_template;
      aggregate = aggregate;
      network_data = network_data;
      linked_host = linked_host;
      config = config;
      metadata = metadata;
    })

  pub accepts-columns :
      (i : Instance J) (row : Row J) → to_rowlike i ≡ some row → accepts columns row ≡ true
  accepts-columns i row e =
      let (j1, q1, e1) = >>=-eq-some (configs.to_value i.config) _ e in
      let (j2, q2, e2) = >>=-eq-some (maps.to_value i.metadata) _ e1 in ground arith

  pub row-Keyed : (i : Instance J) (row : Row J) → to_rowlike i ≡ some row → Keyed columns row i.id
  row-Keyed i row e =
      let (j1, q1, e1) = >>=-eq-some (configs.to_value i.config) _ e in
      let (j2, q2, e2) = >>=-eq-some (maps.to_value i.metadata) _ e1 in
      record { all = ground arith; again = ground arith; key = ground arith; one = ground arith }

  pub from_row-stored :
      RoundTrips configs
      → RoundTrips maps
      → (i : Instance J) (row : Row J) → to_rowlike i ≡ some row
      → from_row (stored columns row) ≡ some i
  from_row-stored r_configs r_maps i row e =
      let (j1, q1, e1) = >>=-eq-some (configs.to_value i.config) _ e in
      let (j2, q2, e2) = >>=-eq-some (maps.to_value i.metadata) _ e1 in
      ground (arith, r_configs i.config j1 q1, r_maps i.metadata j2 q2)
