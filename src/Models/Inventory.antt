-- ===== src/Models/Inventory.antt =====
-- src/models/src/inventory.rs: the data that several of its tables keep as JSON, and its tables.
pub mod Flavor
pub mod Host
pub mod Vlan
pub mod HostPort
pub mod InterfaceFlavor
pub mod ExtraFlavorInfo
use laas_reflab.Prelude.{ℕ, ◌≡◌, refl, String, Bool, Option, none, some, List}

pub data DataUnit : Type 0 where
  unknown : DataUnit
  bytes kilo_bytes mega_bytes giga_bytes tera_bytes : DataUnit
  bits bits_per_second kilo_bits_per_second mega_bits_per_second giga_bits_per_second : DataUnit

pub record DataValue : Type 0 where
  pub value : ℕ
  pub unit : DataUnit

pub data CardType : Type 0 where
  pcie_onboard pcie_modular unknown : CardType

pub data Arch : Type 0 where
  x86 x86_64 aarch64 : Arch

pub record IpInfo : Type 0 where
  pub subnet : ℕ
  pub netmask : ℕ
  pub gateway : Option ℕ
  pub provides_dhcp : Bool

pub record IpNetwork : Type 0 where
  pub v4 : Option IpInfo
  pub v6 : Option IpInfo
