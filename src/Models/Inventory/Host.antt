-- ===== src/Models/Inventory/Host.antt =====
-- inventory.rs, `impl DBTable for Host`, with the columns after both migrations.
use Prim.Native.String.{count}
use laas_reflab.Prelude.{ℕ, ◌≡◌, arith, String, Bool, true, ◌&&◌, Option, some, List, [], ◌∷◌, leb}
use laas_reflab.Models.Rows.{
  uuid, varchar, mac_addr, json, uuid_type, varchar_type, macaddr_type, jsonb_type, varchar_max,
  Column, ◌>>=◌, >>=-eq-some, Codec, RoundTrips, Row, accepts, stored, get_uuid, get_text, get_mac,
  get_json, Keyed,
}
use laas_reflab.Models.Inventory.{Arch}

pub record Host : Type 0 where
  pub id : ℕ
  pub server_name : String
  pub arch : Arch
  pub flavor : ℕ
  pub serial : String
  pub ipmi_fqdn : String
  pub iol_id : String
  pub ipmi_mac : ℕ
  pub ipmi_user : String
  pub ipmi_pass : String
  pub fqdn : String
  pub projects : List String

abbrev pub columns : List Column
columns =
    record { name = "id"; kind = uuid_type; not_null = true }
    ∷ record { name = "server_name"; kind = varchar_max 1000; not_null = true }
    ∷ record { name = "arch"; kind = jsonb_type; not_null = true }
    ∷ record { name = "flavor"; kind = uuid_type; not_null = true }
    ∷ record { name = "serial"; kind = varchar_max 1000; not_null = true }
    ∷ record { name = "ipmi_fqdn"; kind = varchar_max 1000; not_null = true }
    ∷ record { name = "iol_id"; kind = varchar_max 1000; not_null = true }
    ∷ record { name = "ipmi_mac"; kind = macaddr_type; not_null = true }
    ∷ record { name = "ipmi_user"; kind = varchar_max 1000; not_null = true }
    ∷ record { name = "ipmi_pass"; kind = varchar_max 1000; not_null = true }
    ∷ record { name = "projects"; kind = jsonb_type; not_null = true }
    ∷ record { name = "fqdn"; kind = varchar_type; not_null = true }
    ∷ []

-- Whether the table takes it.
abbrev pub fits : Host → Bool
fits h =
    leb (count h.server_name) 1000
    && leb (count h.serial) 1000
    && leb (count h.ipmi_fqdn) 1000
    && leb (count h.iol_id) 1000
    && leb (count h.ipmi_user) 1000
    && leb (count h.ipmi_pass) 1000

module _ {J : Type 0} (arches : Codec J Arch) (lists : Codec J (List String)) where
  abbrev pub to_rowlike : Host → Option (Row J)
  to_rowlike h = do
    arch ← arches.to_value h.arch
    projects ← lists.to_value h.projects
    some (
        ("id", uuid h.id)
        ∷ ("server_name", varchar h.server_name)
        ∷ ("iol_id", varchar h.iol_id)
        ∷ ("arch", json arch)
        ∷ ("flavor", uuid h.flavor)
        ∷ ("serial", varchar h.serial)
        ∷ ("ipmi_fqdn", varchar h.ipmi_fqdn)
        ∷ ("ipmi_mac", mac_addr h.ipmi_mac)
        ∷ ("ipmi_user", varchar h.ipmi_user)
        ∷ ("ipmi_pass", varchar h.ipmi_pass)
        ∷ ("projects", json projects)
        ∷ ("fqdn", varchar h.fqdn)
        ∷ [])

  abbrev pub from_row : Row J → Option Host
  from_row row = do
    id ← get_uuid "id" row
    server_name ← get_text "server_name" row
    arch_json ← get_json "arch" row
    arch ← arches.from_value arch_json
    flavor ← get_uuid "flavor" row
    serial ← get_text "serial" row
    ipmi_fqdn ← get_text "ipmi_fqdn" row
    iol_id ← get_text "iol_id" row
    ipmi_mac ← get_mac "ipmi_mac" row
    ipmi_user ← get_text "ipmi_user" row
    ipmi_pass ← get_text "ipmi_pass" row
    fqdn ← get_text "fqdn" row
    projects_json ← get_json "projects" row
    projects ← lists.from_value projects_json
    some (record {
      id = id;
      server_name = server_name;
      arch = arch;
      flavor = flavor;
      serial = serial;
      ipmi_fqdn = ipmi_fqdn;
      iol_id = iol_id;
      ipmi_mac = ipmi_mac;
      ipmi_user = ipmi_user;
      ipmi_pass = ipmi_pass;
      fqdn = fqdn;
      projects = projects;
    })

  pub accepts-columns :
      (h : Host) (row : Row J) → to_rowlike h ≡ some row → accepts columns row ≡ fits h
  accepts-columns h row e =
      let (j1, q1, e1) = >>=-eq-some (arches.to_value h.arch) _ e in
      let (j2, q2, e2) = >>=-eq-some (lists.to_value h.projects) _ e1 in ground arith

  pub row-Keyed : (h : Host) (row : Row J) → to_rowlike h ≡ some row → Keyed columns row h.id
  row-Keyed h row e =
      let (j1, q1, e1) = >>=-eq-some (arches.to_value h.arch) _ e in
      let (j2, q2, e2) = >>=-eq-some (lists.to_value h.projects) _ e1 in
      record { all = ground arith; again = ground arith; key = ground arith; one = ground arith }

  pub from_row-stored :
      RoundTrips arches
      → RoundTrips lists
      → (h : Host) (row : Row J) → to_rowlike h ≡ some row
      → from_row (stored columns row) ≡ some h
  from_row-stored r_arches r_lists h row e =
      let (j1, q1, e1) = >>=-eq-some (arches.to_value h.arch) _ e in
      let (j2, q2, e2) = >>=-eq-some (lists.to_value h.projects) _ e1 in
      ground (arith, r_arches h.arch j1 q1, r_lists h.projects j2 q2)
