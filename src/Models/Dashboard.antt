-- ===== src/Models/Dashboard.antt =====
-- src/models/src/dashboard.rs: the data that several of its tables keep as JSON, and its tables.
pub mod Aggregate
pub mod Image
pub mod NetworkAssignmentMap
pub mod Template
pub mod Instance
pub mod ProvisionLogEvent
use laas_reflab.Prelude.{ℕ, String, Bool, Option, List}

pub data LifeCycleState : Type 0 where
  new active done : LifeCycleState

-- The times are in seconds.
pub record BookingMetadata : Type 0 where
  pub booking_id : Option String
  pub owner : Option String
  pub lab : Option String
  pub purpose : Option String
  pub project : Option String
  pub start : Option ℕ
  pub end : Option ℕ

pub record AggregateConfiguration : Type 0 where
  pub ipmi_username : String
  pub ipmi_password : String

pub record VlanConnectionConfig : Type 0 where
  pub network : ℕ
  pub tagged : Bool

pub record BondGroupConfig : Type 0 where
  pub connects_to : List VlanConnectionConfig
  pub member_interfaces : List String

pub record HostConfig : Type 0 where
  pub hostname : String
  pub flavor : ℕ
  pub image : ℕ
  pub cifile : List ℕ
  pub connections : List BondGroupConfig

pub data StatusSentiment : Type 0 where
  succeeded in_progress degraded failed unknown : StatusSentiment

pub record ProvEvent : Type 0 where
  pub event : String
  pub details : String
