-- ===== src/Network.antt =====
-- src/workflows/src/resource_management/network.rs: what a host's ports are to be connected to, with the
-- rows that the code reads for it, as the tables of the models have them. A panic is `none`.
pub mod Configs
pub mod Commands
pub mod Applied
pub mod Coverage
mod Tests
use laas_reflab.Prelude.{
  ℕ, ◌-◌, ◌%◌, Bool, true, false, Option, none, some, List, [], ◌∷◌, ◌++◌, ◌==◌, ltb, if◌then◌else◌,
  select, head?,
}
use laas_reflab.Models.Rows.{ℤ, pos, negsuc, ◌>>=◌}
use laas_reflab.Models.Inventory.Vlan.{Vlan}
use laas_reflab.Models.Inventory.HostPort.{HostPort}
use laas_reflab.Models.JsonModel.{Switch, SwitchPort, Network}
use laas_reflab.Models.Dashboard.Aggregate.{Aggregate}
use laas_reflab.Models.Dashboard.Instance.{Instance}
use laas_reflab.Models.Dashboard.NetworkAssignmentMap.{NetworkAssignmentMap}

pub record VlanConnection : Type 0 where
  pub vlan : ℕ
  pub tagged : Bool

pub record BondGroup : Type 0 where
  pub member_host_ports : List ℕ
  pub vlans : List VlanConnection

pub record NetworkConfig : Type 0 where
  pub bondgroups : List BondGroup
  pub persist : Bool

-- The tables that the code reads, as lists of rows; of the hosts, the ids.
pub record Tables (J : Type 0) : Type 0 where
  pub hosts : List ℕ
  pub vlans : List Vlan
  pub host_ports : List HostPort
  pub switchports : List SwitchPort
  pub switches : List Switch
  pub networks : List Network
  pub network_assignments : List NetworkAssignmentMap
  pub aggregates : List Aggregate
  pub instances : List (Instance J)

-- The row of an id, as `FKey::get` has it.
module _ {A : Type 0} (key : A → ℕ) where
  abbrev pub find_row : ℕ → List A → Option A
  find_row id [] = none
  find_row id (row ∷ rows) = if key row == id then some row else find_row id rows

-- `NetworkConfigBuilder`, which is the config that it builds on.
abbrev pub new_builder : NetworkConfig
new_builder = record { bondgroups = []; persist = true }

abbrev pub set_persist : Bool → NetworkConfig → NetworkConfig
set_persist persist c = record { bondgroups = c.bondgroups; persist = persist }

abbrev pub bond : BondGroup → NetworkConfig → NetworkConfig
bond b c = record c { bondgroups = c.bondgroups ++ b ∷ [] }

abbrev pub new_group : BondGroup
new_group = record { member_host_ports = []; vlans = [] }

abbrev pub with_vlan : VlanConnection → BondGroup → BondGroup
with_vlan v b = record b { vlans = b.vlans ++ v ∷ [] }

abbrev pub with_port : ℕ → BondGroup → BondGroup
with_port port b = record b { member_host_ports = b.member_host_ports ++ port ∷ [] }

-- `as i16` and `as u16`.
abbrev pub as_i16 : ℕ → ℤ
as_i16 n = if ltb (n % 65536) 32768 then pos (n % 65536) else negsuc (65535 - n % 65536)

abbrev pub as_u16 : ℤ → ℕ
as_u16 (pos n) = n % 65536
as_u16 (negsuc n) = 65535 - n % 65536

abbrev pub same_int : ℤ → ℤ → Bool
same_int (pos m) (pos n) = m == n
same_int (negsuc m) (negsuc n) = m == n
same_int (pos m) (negsuc n) = false
same_int (negsuc m) (pos n) = false

-- `.where_field("vlan_id").equals(id)`, in the order of the table, and `.get(0).unwrap()` of it.
abbrev pub vlan_numbered : ℤ → List Vlan → Option Vlan
vlan_numbered id vlans = head? (select (λ v. same_int v.vlan_id id) vlans)

abbrev pub connected : Bool → Vlan → VlanConnection
connected tagged v = record { vlan = v.id; tagged = tagged }

module _ {J : Type 0} (t : Tables J) where
  abbrev pub from_pair : ℕ → Bool → Option VlanConnection
  from_pair vlan_id tagged =
      vlan_numbered (as_i16 vlan_id) t.vlans >>= λ v. some (connected tagged v)

  -- `Host::ports`.
  abbrev pub ports : ℕ → List HostPort
  ports host = select (λ p. p.on_host == host) t.host_ports
