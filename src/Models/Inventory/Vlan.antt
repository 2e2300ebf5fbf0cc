-- ===== src/Models/Inventory/Vlan.antt =====
-- inventory.rs, `impl DBTable for Vlan`.
use laas_reflab.Prelude.{ℕ, ◌≡◌, arith, true, false, Option, none, some, List, [], ◌∷◌}
use laas_reflab.Models.Rows.{
  Value, uuid, small, json, null, uuid_type, smallint_type, jsonb_type, Column, ℤ, ◌>>=◌,
  >>=-eq-some, Codec, RoundTrips, Row, accepts, stored, get_uuid, get_small, get_json?, json?,
  Keyed,
}
use laas_reflab.Models.Inventory.{IpNetwork}

pub record Vlan : Type 0 where
  pub id : ℕ
  pub vlan_id : ℤ
  pub public_config : Option IpNetwork

abbrev pub columns : List Column
columns =
    record { name = "id"; kind = uuid_type; not_null = true }
    ∷ record { name = "vlan_id"; kind = smallint_type; not_null = true }
    ∷ record { name = "public_config"; kind = jsonb_type; not_null = false }
    ∷ []

module _ {J : Type 0} (networks : Codec J IpNetwork) where
  abbrev pub config_value : Option IpNetwork → Option (Value J)
  config_value none = some null
  config_value (some v) = networks.to_value v >>= λ j. some (json j)

  abbrev pub config_of : Option J → Option (Option IpNetwork)
  config_of none = some none
  config_of (some j) = networks.from_value j >>= λ v. some (some v)

  abbrev pub to_rowlike : Vlan → Option (Row J)
  to_rowlike v = do
    public_config ← config_value v.public_config
    some (("id", uuid v.id) ∷ ("vlan_id", small v.vlan_id) ∷ ("public_config", public_config) ∷ [])

  abbrev pub from_row : Row J → Option Vlan
  from_row row = do
    config ← get_json? "public_config" row
    public_config ← config_of config
    id ← get_uuid "id" row
    vlan_id ← get_small "vlan_id" row
    some (record { id = id; vlan_id = vlan_id; public_config = public_config })

  pub accepts-columns :
      (v : Vlan) (row : Row J) → to_rowlike v ≡ some row → accepts columns row ≡ true
  accepts-columns v row e =
      let (c, q, e₁) = >>=-eq-some (config_value v.public_config) _ e in ground arith

  pub row-Keyed : (v : Vlan) (row : Row J) → to_rowlike v ≡ some row → Keyed columns row v.id
  row-Keyed v row e =
      let (c, q, e₁) = >>=-eq-some (config_value v.public_config) _ e in
      record { all = ground arith; again = ground arith; key = ground arith; one = ground arith }

  config_of-config_value :
      RoundTrips networks
      → (o : Option IpNetwork) (c : Value J) → config_value o ≡ some c
      → (json? c >>= config_of) ≡ some o
  config_of-config_value rn none c q = ground arith
  config_of-config_value rn (some n) c q =
      let (j, t, q₁) = >>=-eq-some (networks.to_value n) (λ j. some (json j)) q in
      ground (arith, rn n j t)

  pub from_row-stored :
      RoundTrips networks
      → (v : Vlan) (row : Row J) → to_rowlike v ≡ some row
      → from_row (stored columns row) ≡ some v
  from_row-stored rn v row e =
      let (c, q, e₁) = >>=-eq-some (config_value v.public_config) _ e in
      ground (arith, config_of-config_value rn v.public_config c q)
