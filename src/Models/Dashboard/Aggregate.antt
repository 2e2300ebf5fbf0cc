-- ===== src/Models/Dashboard/Aggregate.antt =====
-- dashboard.rs, `impl DBTable for Aggregate`, with the columns after its three migrations. The
-- driver converts `state` to JSON when it runs a statement; here `to_rowlike` does, so that an error of
-- that conversion comes a step earlier.
use laas_reflab.Prelude.{ℕ, ◌≡◌, arith, String, Bool, true, Option, some, List, [], ◌∷◌}
use laas_reflab.Models.Rows.{
  uuid, varchar, boolean, json, texts, uuid_type, varchar_type, boolean_type, jsonb_type,
  varchar_array, Column, ◌>>=◌, >>=-eq-some, Codec, RoundTrips, Row, accepts, stored, unwrap_or,
  get_uuid, get_text, get_bool, get_json, get_texts, Keyed,
}
use laas_reflab.Models.Dashboard.{LifeCycleState, BookingMetadata, AggregateConfiguration}

pub record Aggregate : Type 0 where
  pub id : ℕ
  pub deleted : Bool
  pub users : List String
  pub vlans : ℕ
  pub template : ℕ
  pub metadata : BookingMetadata
  pub state : LifeCycleState
  pub configuration : AggregateConfiguration
  pub origin : String

abbrev pub columns : List Column
columns =
    record { name = "id"; kind = uuid_type; not_null = true }
    ∷ record { name = "deleted"; kind = boolean_type; not_null = true }
    ∷ record { name = "users"; kind = varchar_array; not_null = true }
    ∷ record { name = "vlans"; kind = uuid_type; not_null = true }
    ∷ record { name = "metadata"; kind = jsonb_type; not_null = true }
    ∷ record { name = "lifecycle_state"; kind = jsonb_type; not_null = true }
    ∷ record { name = "template"; kind = uuid_type; not_null = true }
    ∷ record { name = "origin"; kind = varchar_type; not_null = true }
    ∷ record { name = "configuration"; kind = jsonb_type; not_null = true }
    ∷ []

module _ {J : Type 0} (metas : Codec J BookingMetadata) (states : Codec J LifeCycleState)
    (configs : Codec J AggregateConfiguration) where
  abbrev pub to_rowlike : Aggregate → Option (Row J)
  to_rowlike a = do
    metadata ← metas.to_value a.metadata
    state ← states.to_value a.state
    configuration ← configs.to_value a.configuration
    some (
        ("id", uuid a.id)
        ∷ ("deleted", boolean a.deleted)
        ∷ ("users", texts a.users)
        ∷ ("vlans", uuid a.vlans)
        ∷ ("metadata", json metadata)
        ∷ ("template", uuid a.template)
        ∷ ("lifecycle_state", json state)
        ∷ ("origin", varchar a.origin)
        ∷ ("configuration", json configuration)
        ∷ [])

  abbrev pub from_row : Row J → Option Aggregate
  from_row row = do
    id ← get_uuid "id" row
    deleted ← get_bool "deleted" row
    users ← get_texts "users" row
    vlans ← get_uuid "vlans" row
    template ← get_uuid "template" row
    metadata_json ← get_json "metadata" row
    metadata ← metas.from_value metadata_json
    state_json ← get_json "lifecycle_state" row
    state ← states.from_value state_json
    configuration_json ← get_json "configuration" row
    let configuration =
        unwrap_or (record { ipmi_username = ""; ipmi_password = "" })
          (configs.from_value configuration_json)
    origin ← get_text "origin" row
    some (record {
      id = id;
      deleted = deleted;
      users = users;
      vlans = vlans;
      template = template;
      metadata = metadata;
      state = state;
      configuration = configuration;
      origin = origin;
    })

  pub accepts-columns :
      (a : Aggregate) (row : Row J) → to_rowlike a ≡ some row → accepts columns row ≡ true
  accepts-columns a row e =
      let (j1, q1, e1) = >>=-eq-some (metas.to_value a.metadata) _ e in
      let (j2, q2, e2) = >>=-eq-some (states.to_value a.state) _ e1 in
      let (j3, q3, e3) = >>=-eq-some (configs.to_value a.configuration) _ e2 in ground arith

  pub row-Keyed : (a : Aggregate) (row : Row J) → to_rowlike a ≡ some row → Keyed columns row a.id
  row-Keyed a row e =
      let (j1, q1, e1) = >>=-eq-some (metas.to_value a.metadata) _ e in
      let (j2, q2, e2) = >>=-eq-some (states.to_value a.state) _ e1 in
      let (j3, q3, e3) = >>=-eq-some (configs.to_value a.configuration) _ e2 in
      record { all = ground arith; again = ground arith; key = ground arith; one = ground arith }

  pub from_row-stored :
      RoundTrips metas
      → RoundTrips states
      → RoundTrips configs
      → (a : Aggregate) (row : Row J) → to_rowlike a ≡ some row
      → from_row (stored columns row) ≡ some a
  from_row-stored r_metas r_states r_configs a row e =
      let (j1, q1, e1) = >>=-eq-some (metas.to_value a.metadata) _ e in
      let (j2, q2, e2) = >>=-eq-some (states.to_value a.state) _ e1 in
      let (j3, q3, e3) = >>=-eq-some (configs.to_value a.configuration) _ e2 in
      ground
        (arith, r_metas a.metadata j1 q1, r_states a.state j2 q2, r_configs a.configuration j3 q3)
