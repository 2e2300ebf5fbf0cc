-- ===== src/Models/Inventory/HostPort.antt =====
-- inventory.rs, `impl DBTable for HostPort`.
use laas_reflab.Prelude.{ℕ, ◌≡◌, arith, String, Bool, true, Option, some, List, [], ◌∷◌, is_some}
use laas_reflab.Models.Rows.{
  uuid, varchar, json, uuid_type, varchar_type, jsonb_type, Column, ◌>>=◌, >>=-eq-some, Codec,
  RoundTrips, Row, accepts, stored, nullable, get_uuid, get_text, get_json, get_uuid?, Keyed,
}
use laas_reflab.Models.Inventory.{DataValue}

pub record HostPort : Type 0 where
  pub id : ℕ
  pub on_host : ℕ
  pub switchport : Option ℕ
  pub name : String
  pub speed : DataValue
  pub mac : ℕ
  pub switch : String
  pub bus_addr : String
  pub is_a : ℕ

abbrev pub columns : List Column
columns =
    record { name = "id"; kind = uuid_type; not_null = true }
    ∷ record { name = "on_host"; kind = uuid_type; not_null = true }
    ∷ record { name = "switchport"; kind = uuid_type; not_null = true }
    ∷ record { name = "name"; kind = varchar_type; not_null = true }
    ∷ record { name = "speed"; kind = jsonb_type; not_null = true }
    ∷ record { name = "mac"; kind = jsonb_type; not_null = true }
    ∷ record { name = "switch"; kind = varchar_type; not_null = true }
    ∷ record { name = "bus_addr"; kind = varchar_type; not_null = true }
    ∷ record { name = "is_a"; kind = uuid_type; not_null = true }
    ∷ []

-- Whether the table takes it.
abbrev pub fits : HostPort → Bool
fits h = is_some h.switchport

module _ {J : Type 0} (values : Codec J DataValue) (macs : Codec J ℕ) where
  abbrev pub to_rowlike : HostPort → Option (Row J)
  to_rowlike h = do
    speed ← values.to_value h.speed
    mac ← macs.to_value h.mac
    some (
        ("id", uuid h.id)
        ∷ ("on_host", uuid h.on_host)
        ∷ ("switchport", nullable uuid h.switchport)
        ∷ ("name", varchar h.name)
        ∷ ("speed", json speed)
        ∷ ("mac", json mac)
        ∷ ("switch", varchar h.switch)
        ∷ ("bus_addr", varchar h.bus_addr)
        ∷ ("is_a", uuid h.is_a)
        ∷ [])

  abbrev pub from_row : Row J → Option HostPort
  from_row row = do
    id ← get_uuid "id" row
    on_host ← get_uuid "on_host" row
    switchport ← get_uuid? "switchport" row
    name ← get_text "name" row
    speed_json ← get_json "speed" row
    speed ← values.from_value speed_json
    mac_json ← get_json "mac" row
    mac ← macs.from_value mac_json
    switch ← get_text "switch" row
    bus_addr ← get_text "bus_addr" row
    is_a ← get_uuid "is_a" row
    some (record {
      id = id;
      on_host = on_host;
      switchport = switchport;
      name = name;
      speed = speed;
      mac = mac;
      switch = switch;
      bus_addr = bus_addr;
      is_a = is_a;
    })

  pub accepts-columns :
      (h : HostPort) (row : Row J) → to_rowlike h ≡ some row → accepts columns row ≡ fits h
  accepts-columns h row e =
      let (j1, q1, e1) = >>=-eq-some (values.to_value h.speed) _ e in
      let (j2, q2, e2) = >>=-eq-some (macs.to_value h.mac) _ e1 in ground arith

  pub row-Keyed : (h : HostPort) (row : Row J) → to_rowlike h ≡ some row → Keyed columns row h.id
  row-Keyed h row e =
      let (j1, q1, e1) = >>=-eq-some (values.to_value h.speed) _ e in
      let (j2, q2, e2) = >>=-eq-some (macs.to_value h.mac) _ e1 in
      record { all = ground arith; again = ground arith; key = ground arith; one = ground arith }

  pub from_row-stored :
      RoundTrips values
      → RoundTrips macs
      → (h : HostPort) (row : Row J) → to_rowlike h ≡ some row
      → from_row (stored columns row) ≡ some h
  from_row-stored r_values r_macs h row e =
      let (j1, q1, e1) = >>=-eq-some (values.to_value h.speed) _ e in
      let (j2, q2, e2) = >>=-eq-some (macs.to_value h.mac) _ e1 in
      ground (arith, r_values h.speed j1 q1, r_macs h.mac j2 q2)
