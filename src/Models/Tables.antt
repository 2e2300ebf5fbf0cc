-- ===== src/Models/Tables.antt =====
-- The tables of inventory.rs and dashboard.rs in src/models/src, which implement `DBTable`, and the dispatch of the trait's methods over them.
use laas_reflab.Prelude.{ℕ, ◌≡◌, ◌∙◌, String, Bool, true, Option, some, List, ◌<◌}
use laas_reflab.Models.Rows.{ℤ, Column, Codec, RoundTrips, Row, accepts, stored, Keyed}
use laas_reflab.Models.Inventory.{DataValue, CardType, Arch, IpNetwork}
use laas_reflab.Models.Dashboard.{
  BookingMetadata, LifeCycleState, AggregateConfiguration, HostConfig, StatusSentiment, ProvEvent,
}
use laas_reflab.Models.JsonModel
use laas_reflab.Models.JsonModel.{
  Json, Switch, SwitchPort, Action, Network, Cifile, PartialTemplate,
}
use laas_reflab.Models.Inventory.Flavor
use laas_reflab.Models.Inventory.Flavor.{Flavor, loaded_cpus}
use laas_reflab.Models.Inventory.InterfaceFlavor
use laas_reflab.Models.Inventory.InterfaceFlavor.{InterfaceFlavor}
use laas_reflab.Models.Inventory.ExtraFlavorInfo
use laas_reflab.Models.Inventory.ExtraFlavorInfo.{ExtraFlavorInfo}
use laas_reflab.Models.Inventory.Host
use laas_reflab.Models.Inventory.Host.{Host}
use laas_reflab.Models.Inventory.HostPort
use laas_reflab.Models.Inventory.HostPort.{HostPort}
use laas_reflab.Models.Inventory.Vlan
use laas_reflab.Models.Inventory.Vlan.{Vlan}
use laas_reflab.Models.Dashboard.Aggregate
use laas_reflab.Models.Dashboard.Aggregate.{Aggregate}
use laas_reflab.Models.Dashboard.Template
use laas_reflab.Models.Dashboard.Template.{Template}
use laas_reflab.Models.Dashboard.Instance
use laas_reflab.Models.Dashboard.Instance.{Instance}
use laas_reflab.Models.Dashboard.NetworkAssignmentMap
use laas_reflab.Models.Dashboard.NetworkAssignmentMap.{NetworkAssignmentMap, UuidText, ReadsBack}
use laas_reflab.Models.Dashboard.Image
use laas_reflab.Models.Dashboard.Image.{Image}
use laas_reflab.Models.Dashboard.ProvisionLogEvent
use laas_reflab.Models.Dashboard.ProvisionLogEvent.{ProvisionLogEvent}

-- The tables, by their `table_name`.
pub data Table : Type 0 where
  flavors interface_flavors extra_flavor_info hosts host_ports vlans : Table
  aggregates templates instances network_assignments images provision_log_events : Table
  switches switchports host_actions networks ci_files partial_templates : Table

abbrev pub Model : Type 0 → Table → Type 0
Model J flavors = Flavor
Model J interface_flavors = InterfaceFlavor
Model J extra_flavor_info = ExtraFlavorInfo
Model J hosts = Host
Model J host_ports = HostPort
Model J vlans = Vlan
Model J aggregates = Aggregate
Model J templates = Template
Model J instances = Instance J
Model J network_assignments = NetworkAssignmentMap
Model J images = Image
Model J provision_log_events = ProvisionLogEvent
Model J switches = Switch
Model J switchports = SwitchPort
Model J host_actions = Action
Model J networks = Network
Model J ci_files = Cifile
Model J partial_templates = PartialTemplate J

abbrev pub columns : Table → List Column
columns flavors = Flavor.columns
columns interface_flavors = InterfaceFlavor.columns
columns extra_flavor_info = ExtraFlavorInfo.columns
columns hosts = Host.columns
columns host_ports = HostPort.columns
columns vlans = Vlan.columns
columns aggregates = Aggregate.columns
columns templates = Template.columns
columns instances = Instance.columns
columns network_assignments = NetworkAssignmentMap.columns
columns images = Image.columns
columns provision_log_events = ProvisionLogEvent.columns
columns switches = JsonModel.columns
columns switchports = JsonModel.columns
columns host_actions = JsonModel.columns
columns networks = JsonModel.columns
columns ci_files = JsonModel.columns
columns partial_templates = JsonModel.columns

-- `serde_json` at the types of the models, and the texts of ids.
pub record Serde (J : Type 0) : Type 0 where
  pub i64s : Codec J ℤ
  pub data_values : Codec J DataValue
  pub card_types : Codec J CardType
  pub arches : Codec J Arch
  pub texts : Codec J (List String)
  pub macs : Codec J ℕ
  pub ip_networks : Codec J IpNetwork
  pub metadatas : Codec J BookingMetadata
  pub states : Codec J LifeCycleState
  pub configurations : Codec J AggregateConfiguration
  pub host_configs : Codec J (List HostConfig)
  pub host_config : Codec J HostConfig
  pub metadata_maps : Codec J (List (String × J))
  pub text_maps : Codec J (List (String × String))
  pub sentiments : Codec J StatusSentiment
  pub events : Codec J ProvEvent
  pub ids : UuidText
  pub switches : Json J Switch
  pub switchports : Json J SwitchPort
  pub host_actions : Json J Action
  pub networks : Json J Network
  pub ci_files : Json J Cifile
  pub partial_templates : Json J (PartialTemplate J)

-- What serde_json and uuid document: a value is read back from what it is written as. A `HashMap` is the
-- list of its pairs in the order of the keys: a list in another order stands for no map, and has no value.
pub record Lawful {J : Type 0} (s : Serde J) : Type 0 where
  pub i64s : RoundTrips s.i64s
  pub data_values : RoundTrips s.data_values
  pub card_types : RoundTrips s.card_types
  pub arches : RoundTrips s.arches
  pub texts : RoundTrips s.texts
  pub macs : RoundTrips s.macs
  pub ip_networks : RoundTrips s.ip_networks
  pub metadatas : RoundTrips s.metadatas
  pub states : RoundTrips s.states
  pub configurations : RoundTrips s.configurations
  pub host_configs : RoundTrips s.host_configs
  pub host_config : RoundTrips s.host_config
  pub metadata_maps : RoundTrips s.metadata_maps
  pub text_maps : RoundTrips s.text_maps
  pub sentiments : RoundTrips s.sentiments
  pub events : RoundTrips s.events
  pub ids : ReadsBack s.ids
  pub switches : JsonModel.ReadsBack s.switches
  pub switchports : JsonModel.ReadsBack s.switchports
  pub host_actions : JsonModel.ReadsBack s.host_actions
  pub networks : JsonModel.ReadsBack s.networks
  pub ci_files : JsonModel.ReadsBack s.ci_files
  pub partial_templates : JsonModel.ReadsBack s.partial_templates

module _ (J : Type 0) where
  abbrev pub id_of : (t : Table) → Model J t → ℕ
  id_of flavors m = m.id
  id_of interface_flavors m = m.id
  id_of extra_flavor_info m = m.id
  id_of hosts m = m.id
  id_of host_ports m = m.id
  id_of vlans m = m.id
  id_of aggregates m = m.id
  id_of templates m = m.id
  id_of instances m = m.id
  id_of network_assignments m = m.id
  id_of images m = m.id
  id_of provision_log_events m = m.id
  id_of switches m = m.id
  id_of switchports m = m.id
  id_of host_actions m = m.id
  id_of networks m = m.id
  id_of ci_files m = m.id
  id_of partial_templates m = m.id

  -- What the columns demand of a model beside their types.
  abbrev pub fits : (t : Table) → Model J t → Bool
  fits flavors m = Flavor.fits m
  fits hosts m = Host.fits m
  fits host_ports m = HostPort.fits m
  fits t m = true

  -- The number of CPUs of a flavor is a `usize`.
  abbrev pub IsUsize : (t : Table) → Model J t → Type 0
  IsUsize flavors m = m.cpu_count < 18446744073709551616
  IsUsize t m = Unit {0}

  -- The model that is loaded, when `m` was stored.
  abbrev pub as_loaded : (t : Table) → Model J t → Model J t
  as_loaded flavors m = record m { cpu_count = loaded_cpus m.cpu_count }
  as_loaded provision_log_events m = record m { time = ProvisionLogEvent.loaded_time m.time }
  as_loaded t m = m

module _ {J : Type 0} (s : Serde J) where
  abbrev pub to_rowlike : (t : Table) → Model J t → Option (Row J)
  to_rowlike flavors m = Flavor.to_rowlike s.i64s s.data_values m
  to_rowlike interface_flavors m = InterfaceFlavor.to_rowlike s.data_values s.card_types m
  to_rowlike extra_flavor_info m = ExtraFlavorInfo.to_rowlike m
  to_rowlike hosts m = Host.to_rowlike s.arches s.texts m
  to_rowlike host_ports m = HostPort.to_rowlike s.data_values s.macs m
  to_rowlike vlans m = Vlan.to_rowlike s.ip_networks m
  to_rowlike aggregates m = Aggregate.to_rowlike s.metadatas s.states s.configurations m
  to_rowlike templates m = Template.to_rowlike s.host_configs m
  to_rowlike instances m = Instance.to_rowlike s.host_config s.metadata_maps m
  to_rowlike network_assignments m = NetworkAssignmentMap.to_rowlike s.ids s.text_maps m
  to_rowlike images m = Image.to_rowlike m
  to_rowlike provision_log_events m = ProvisionLogEvent.to_rowlike s.sentiments s.events m
  to_rowlike switches m = JsonModel.to_rowlike s.switches (λ x. x.id) m
  to_rowlike switchports m = JsonModel.to_rowlike s.switchports (λ x. x.id) m
  to_rowlike host_actions m = JsonModel.to_rowlike s.host_actions (λ x. x.id) m
  to_rowlike networks m = JsonModel.to_rowlike s.networks (λ x. x.id) m
  to_rowlike ci_files m = JsonModel.to_rowlike s.ci_files (λ x. x.id) m
  to_rowlike partial_templates m = JsonModel.to_rowlike s.partial_templates (λ x. x.id) m

  abbrev pub from_row : (t : Table) → Row J → Option (Model J t)
  from_row flavors row = Flavor.from_row s.i64s s.data_values row
  from_row interface_flavors row = InterfaceFlavor.from_row s.data_values s.card_types row
  from_row extra_flavor_info row = ExtraFlavorInfo.from_row row
  from_row hosts row = Host.from_row s.arches s.texts row
  from_row host_ports row = HostPort.from_row s.data_values s.macs row
  from_row vlans row = Vlan.from_row s.ip_networks row
  from_row aggregates row = Aggregate.from_row s.metadatas s.states s.configurations row
  from_row templates row = Template.from_row s.host_configs row
  from_row instances row = Instance.from_row s.host_config s.metadata_maps row
  from_row network_assignments row = NetworkAssignmentMap.from_row s.ids s.text_maps row
  from_row images row = Image.from_row row
  from_row provision_log_events row = ProvisionLogEvent.from_row s.sentiments s.events row
  from_row switches row = JsonModel.from_row s.switches row
  from_row switchports row = JsonModel.from_row s.switchports row
  from_row host_actions row = JsonModel.from_row s.host_actions row
  from_row networks row = JsonModel.from_row s.networks row
  from_row ci_files row = JsonModel.from_row s.ci_files row
  from_row partial_templates row = JsonModel.from_row s.partial_templates row

  -- The row of a model is of the types of its columns, as they stand after the migrations, and fills those
  -- that are NOT NULL, just when the model's texts are short enough and, for a host's port, when it has a
  -- switchport.
  accepts-columns :
      (t : Table) (m : Model J t) (row : Row J)
      → to_rowlike t m ≡ some row
      → accepts (columns t) row ≡ fits J t m
  accepts-columns flavors m row e = Flavor.accepts-columns s.i64s s.data_values m row e
  accepts-columns interface_flavors m row e =
      InterfaceFlavor.accepts-columns s.data_values s.card_types m row e
  accepts-columns extra_flavor_info m row e = ExtraFlavorInfo.accepts-columns m row e
  accepts-columns hosts m row e = Host.accepts-columns s.arches s.texts m row e
  accepts-columns host_ports m row e = HostPort.accepts-columns s.data_values s.macs m row e
  accepts-columns vlans m row e = Vlan.accepts-columns s.ip_networks m row e
  accepts-columns aggregates m row e =
      Aggregate.accepts-columns s.metadatas s.states s.configurations m row e
  accepts-columns templates m row e = Template.accepts-columns s.host_configs m row e
  accepts-columns instances m row e = Instance.accepts-columns s.host_config s.metadata_maps m row e
  accepts-columns network_assignments m row e =
      NetworkAssignmentMap.accepts-columns s.ids s.text_maps m row e
  accepts-columns images m row e = Image.accepts-columns m row e
  accepts-columns provision_log_events m row e =
      ProvisionLogEvent.accepts-columns s.sentiments s.events m row e
  accepts-columns switches m row e = JsonModel.accepts-columns s.switches (λ x. x.id) m row e
  accepts-columns switchports m row e = JsonModel.accepts-columns s.switchports (λ x. x.id) m row e
  accepts-columns host_actions m row e =
      JsonModel.accepts-columns s.host_actions (λ x. x.id) m row e
  accepts-columns networks m row e = JsonModel.accepts-columns s.networks (λ x. x.id) m row e
  accepts-columns ci_files m row e = JsonModel.accepts-columns s.ci_files (λ x. x.id) m row e
  accepts-columns partial_templates m row e =
      JsonModel.accepts-columns s.partial_templates (λ x. x.id) m row e

  pub row-Keyed :
      (t : Table) (m : Model J t) (row : Row J)
      → to_rowlike t m ≡ some row
      → Keyed (columns t) row (id_of J t m)
  row-Keyed flavors m row e = Flavor.row-Keyed s.i64s s.data_values m row e
  row-Keyed interface_flavors m row e = InterfaceFlavor.row-Keyed s.data_values s.card_types m row e
  row-Keyed extra_flavor_info m row e = ExtraFlavorInfo.row-Keyed m row e
  row-Keyed hosts m row e = Host.row-Keyed s.arches s.texts m row e
  row-Keyed host_ports m row e = HostPort.row-Keyed s.data_values s.macs m row e
  row-Keyed vlans m row e = Vlan.row-Keyed s.ip_networks m row e
  row-Keyed aggregates m row e = Aggregate.row-Keyed s.metadatas s.states s.configurations m row e
  row-Keyed templates m row e = Template.row-Keyed s.host_configs m row e
  row-Keyed instances m row e = Instance.row-Keyed s.host_config s.metadata_maps m row e
  row-Keyed network_assignments m row e = NetworkAssignmentMap.row-Keyed s.ids s.text_maps m row e
  row-Keyed images m row e = Image.row-Keyed m row e
  row-Keyed provision_log_events m row e = ProvisionLogEvent.row-Keyed s.sentiments s.events m row e
  row-Keyed switches m row e = JsonModel.row-Keyed s.switches (λ x. x.id) m row e
  row-Keyed switchports m row e = JsonModel.row-Keyed s.switchports (λ x. x.id) m row e
  row-Keyed host_actions m row e = JsonModel.row-Keyed s.host_actions (λ x. x.id) m row e
  row-Keyed networks m row e = JsonModel.row-Keyed s.networks (λ x. x.id) m row e
  row-Keyed ci_files m row e = JsonModel.row-Keyed s.ci_files (λ x. x.id) m row e
  row-Keyed partial_templates m row e = JsonModel.row-Keyed s.partial_templates (λ x. x.id) m row e

  -- The row of a model, with the columns that it leaves out, is read as the model.
  pub from_row-stored :
      Lawful s
      → (t : Table) (m : Model J t) (row : Row J) → IsUsize J t m
      → to_rowlike t m ≡ some row
      → from_row t (stored (columns t) row) ≡ some (as_loaded J t m)
  from_row-stored l flavors m row h e =
      Flavor.from_row-stored s.i64s s.data_values l.i64s l.data_values m row h e
  from_row-stored l interface_flavors m row h e =
      InterfaceFlavor.from_row-stored s.data_values s.card_types l.data_values l.card_types m row e
  from_row-stored l extra_flavor_info m row h e = ExtraFlavorInfo.from_row-stored m row e
  from_row-stored l hosts m row h e = Host.from_row-stored s.arches s.texts l.arches l.texts m row e
  from_row-stored l host_ports m row h e =
      HostPort.from_row-stored s.data_values s.macs l.data_values l.macs m row e
  from_row-stored l vlans m row h e = Vlan.from_row-stored s.ip_networks l.ip_networks m row e
  from_row-stored l aggregates m row h e =
      Aggregate.from_row-stored s.metadatas s.states s.configurations l.metadatas l.states
        l.configurations m row e
  from_row-stored l templates m row h e =
      Template.from_row-stored s.host_configs l.host_configs m row e
  from_row-stored l instances m row h e =
      Instance.from_row-stored s.host_config s.metadata_maps l.host_config l.metadata_maps m row e
  from_row-stored l network_assignments m row h e =
      NetworkAssignmentMap.from_row-stored s.ids s.text_maps l.ids l.text_maps m row e
  from_row-stored l images m row h e = Image.from_row-stored m row e
  from_row-stored l provision_log_events m row h e =
      ProvisionLogEvent.from_row-stored s.sentiments s.events l.sentiments l.events m row e
  from_row-stored l switches m row h e =
      JsonModel.from_row-stored s.switches (λ x. x.id) l.switches m row e
  from_row-stored l switchports m row h e =
      JsonModel.from_row-stored s.switchports (λ x. x.id) l.switchports m row e
  from_row-stored l host_actions m row h e =
      JsonModel.from_row-stored s.host_actions (λ x. x.id) l.host_actions m row e
  from_row-stored l networks m row h e =
      JsonModel.from_row-stored s.networks (λ x. x.id) l.networks m row e
  from_row-stored l ci_files m row h e =
      JsonModel.from_row-stored s.ci_files (λ x. x.id) l.ci_files m row e
  from_row-stored l partial_templates m row h e =
      JsonModel.from_row-stored s.partial_templates (λ x. x.id) l.partial_templates m row e

  -- Where serde_json and uuid read back what they write: a model whose texts are no longer than their
  -- columns allow and, if it is a host's port, that has a switchport, is converted to a row of its
  -- table's types, with a value in each column that is NOT NULL; and the row as it is stored is read
  -- as the model. Only the time of a log's event comes back in whole microseconds, and a flavor comes
  -- back with no CPUs, unless it has 2 ^ 63 of them or more.
  pub from_row-stored_fit :
      Lawful s
      → (t : Table) (m : Model J t) (row : Row J) → IsUsize J t m
      → fits J t m ≡ true
      → to_rowlike t m ≡ some row
      → (accepts (columns t) row ≡ true)
        × (from_row t (stored (columns t) row) ≡ some (as_loaded J t m))
  from_row-stored_fit l t m row h short e =
      (accepts-columns t m row e ∙ short, from_row-stored l t m row h e)
