-- ===== src/Network/Configs.antt =====
-- src/workflows/src/deploy_booking/deploy_host.rs: the configs that a host gets on its way. A map is the
-- list of its pairs, and a loop over it goes in the order of the list.
use text.Mathlib.Text.{◌==◌ as str_eq}
use laas_reflab.Prelude.{
  ℕ, true, false, String, Option, none, some, List, [], ◌∷◌, ◌++◌, if◌then◌else◌, contains, lookup,
}
use laas_reflab.Models.Rows.{pos, ◌>>=◌}
use laas_reflab.Models.Inventory.HostPort.{HostPort}
use laas_reflab.Models.Dashboard.{VlanConnectionConfig, BondGroupConfig}
use laas_reflab.Network.{
  BondGroup, NetworkConfig, Tables, find_row, new_builder, set_persist, bond, new_group, with_vlan,
  with_port, as_u16, vlan_numbered, connected, from_pair, ports,
}

-- The loops that make a group of each port.
abbrev pub bond_each :
    (HostPort → Option BondGroup) → List HostPort → NetworkConfig → Option NetworkConfig
bond_each group [] builder = some builder
bond_each group (port ∷ rest) builder = do b ← group port; bond_each group rest (bond b builder)

-- The map by name that the ports are collected into: a later port takes the place of an earlier one.
abbrev or_earlier : Option HostPort → Option HostPort → Option HostPort
or_earlier (some later) earlier = some later
or_earlier none earlier = earlier

abbrev pub port_named : String → List HostPort → Option HostPort
port_named name [] = none
port_named name (p ∷ ps) =
    or_earlier (port_named name ps) (if str_eq p.name name then some p else none)

-- The two loops of `bg_config_to_bg`.
abbrev pub with_interfaces : List HostPort → List String → BondGroup → Option BondGroup
with_interfaces interfaces [] bg = some bg
with_interfaces interfaces (name ∷ names) bg = do
  port ← port_named name interfaces
  with_interfaces interfaces names (with_port port.id bg)

abbrev pub with_networks : List (ℕ × ℕ) → List VlanConnectionConfig → BondGroup → Option BondGroup
with_networks networks [] bg = some bg
with_networks networks (vcc ∷ vccs) bg = do
  vlan ← lookup vcc.network networks
  with_networks networks vccs (with_vlan (record { vlan = vlan; tagged = vcc.tagged }) bg)

-- The loop over the ports that are left.
abbrev pub bond_others : List HostPort → List ℕ → NetworkConfig → NetworkConfig
bond_others [] configured builder = builder
bond_others (port ∷ rest) configured builder =
    if contains port.id configured
    then bond_others rest configured builder
    else bond_others rest configured (bond (with_port port.id new_group) builder)

module _ {J : Type 0} (t : Tables J) where
  abbrev pub mgmt_group : HostPort → Option BondGroup
  mgmt_group port = do
    ipmi ← from_pair t 99 true
    native ← from_pair t 98 false
    some (with_port port.id (with_vlan native (with_vlan ipmi new_group)))

  unfoldable pub mgmt_network_config : ℕ → Option NetworkConfig
  mgmt_network_config host = do
    host_id ← find_row (λ h. h) host t.hosts
    builder ← bond_each mgmt_group (ports t host_id) new_builder
    some (set_persist false builder)

  -- The first VLAN of a public network; each network and its VLAN are read before.
  abbrev pub public_vlan : List (ℕ × ℕ) → Option (Option ℕ)
  public_vlan [] = some none
  public_vlan ((network, vlan) ∷ rest) = do
    net ← find_row (λ n. n.id) network t.networks
    v ← find_row (λ v. v.id) vlan t.vlans
    if net.public then some (some (as_u16 v.vlan_id)) else public_vlan rest

  abbrev pub public_group : ℕ → HostPort → Option BondGroup
  public_group public_vlan_id port = do
    ipmi ← from_pair t 99 true
    native ← from_pair t public_vlan_id false
    some (with_port port.id (with_vlan native (with_vlan ipmi new_group)))

  unfoldable pub postprovision_network_config : ℕ → ℕ → Option NetworkConfig
  postprovision_network_config host aggregate = do
    agg ← find_row (λ a. a.id) aggregate t.aggregates
    networks ← find_row (λ m. m.id) agg.vlans t.network_assignments
    found ← public_vlan networks.networks
    public_vlan_id ← found
    host_id ← find_row (λ h. h) host t.hosts
    builder ← bond_each (public_group public_vlan_id) (ports t host_id) new_builder
    some (set_persist false builder)

  abbrev pub empty_group : HostPort → Option BondGroup
  empty_group port = do
    ipmi ← from_pair t 99 true
    some (with_port port.id (with_vlan ipmi new_group))

  unfoldable pub empty_network_config : ℕ → Option NetworkConfig
  empty_network_config host = do
    host_id ← find_row (λ h. h) host t.hosts
    builder ← bond_each empty_group (ports t host_id) new_builder
    some (set_persist true builder)

  abbrev pub bg_config_to_bg : BondGroupConfig → List HostPort → List (ℕ × ℕ) → Option BondGroup
  bg_config_to_bg bgc interfaces networks = do
    bg ← with_interfaces interfaces bgc.member_interfaces new_group
    connected_bg ← with_networks networks bgc.connects_to bg
    ipmi ← vlan_numbered (pos 99) t.vlans
    some (with_vlan (connected true ipmi) connected_bg)

  -- The loop over the configs, with the builder and `configured_ports`.
  abbrev pub bond_configs :
      List HostPort
      → List (ℕ × ℕ)
      → List BondGroupConfig
      → NetworkConfig
      → List ℕ
      → Option (NetworkConfig × List ℕ)
  bond_configs interfaces networks [] builder configured = some (builder, configured)
  bond_configs interfaces networks (bgc ∷ rest) builder configured = do
    bg ← bg_config_to_bg bgc interfaces networks
    bond_configs interfaces networks rest (bond bg builder) (configured ++ bg.member_host_ports)

  unfoldable pub prod_network_config : ℕ → ℕ → Option NetworkConfig
  prod_network_config host deployed_as = do
    h ← find_row (λ h. h) host t.hosts
    instance_row ← find_row (λ i. i.id) deployed_as t.instances
    assignments ← find_row (λ m. m.id) instance_row.network_data t.network_assignments
    let connections = instance_row.config.connections
    bonded ← bond_configs (ports t h) assignments.networks connections new_builder []
    some (set_persist true (bond_others (ports t h) bonded.1 bonded.0))
