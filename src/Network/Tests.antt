-- ===== src/Network/Tests.antt =====
-- Configs of a host with three ports, and their runs.
use laas_reflab.Prelude.{
  ℕ, ◌≡◌, refl, String, Bool, true, false, Option, none, some, List, [], ◌∷◌, ◌++◌, ◌≤◌, length,
  map, select, not,
}
use laas_reflab.Models.Rows.{pos, ◌>>=◌}
use laas_reflab.Models.Inventory.{DataUnit}
use laas_reflab.Models.Inventory.Vlan.{Vlan}
use laas_reflab.Models.Inventory.HostPort.{HostPort}
use laas_reflab.Models.JsonModel.{Switch, SwitchPort}
use laas_reflab.Models.Dashboard.Instance.{Instance}
use laas_reflab.Network.{BondGroup, NetworkConfig, Tables, ports, find_row}
use laas_reflab.Network.Configs.{mgmt_network_config, empty_network_config, prod_network_config}
use laas_reflab.Network.Commands.{Request, execute, nx_run_network_task}
use laas_reflab.Network.Commands.OneSwitch.{run_one_switch}
use laas_reflab.Network.Applied.Stages.{lines_of, mgmt_lines, empty_lines}
use laas_reflab.Network.Applied.Sent.{
  command_with, mgmt_network_config_applied, empty_network_config_applied,
}
use laas_reflab.Network.Coverage.{prod_network_config_builds, Built, Pairwise, lone, holds, ids_of}
use laas_reflab.Models.Dashboard.NetworkAssignmentMap.{NetworkAssignmentMap}

abbrev port : ℕ → Option ℕ → String → HostPort
port id switchport name = record {
  id = id;
  on_host = 1;
  switchport = switchport;
  name = name;
  speed = record { value = 10; unit = DataUnit.giga_bits_per_second };
  mac = id;
  switch = "";
  bus_addr = "";
  is_a = 0;
}

abbrev switchport : ℕ → ℕ → String → SwitchPort
switchport id for_switch name = record {
  id = id;
  for_switch = for_switch;
  name = name;
  mac_address = none;
}

abbrev switch_of_id : ℕ → String → Switch
switch_of_id id ip = record {
  id = id;
  name = ip;
  ip = ip;
  user = "laas";
  pass = "secret";
  switch_type = "cisco";
}

abbrev vlan : ℕ → ℕ → Vlan
vlan id number = record { id = id; vlan_id = pos number; public_config = none }

-- The template has one bond group, of the first two ports, on network 70.
abbrev deployed : Instance String
deployed = record {
  id = 60;
  within_template = 0;
  aggregate = 0;
  network_data = 61;
  linked_host = some 1;
  config = record {
    hostname = "node";
    flavor = 0;
    image = 0;
    cifile = [];
    connections =
        record {
          connects_to = record { network = 70; tagged = false } ∷ [];
          member_interfaces = "ens1" ∷ "ens2" ∷ [];
        }
        ∷ [];
  };
  metadata = [];
}

abbrev lab : Tables String
lab = record {
  hosts = 1 ∷ [];
  vlans = vlan 40 98 ∷ vlan 41 99 ∷ vlan 42 105 ∷ [];
  host_ports = port 10 (some 20) "ens1" ∷ port 11 (some 21) "ens2" ∷ port 12 (some 22) "ens3" ∷ [];
  switchports =
      switchport 20 30 "Eth1/1" ∷ switchport 21 30 "Eth1/2" ∷ switchport 22 30 "Eth1/3" ∷ [];
  switches = switch_of_id 30 "10.0.0.2" ∷ switch_of_id 31 "10.0.0.3" ∷ [];
  networks = [];
  network_assignments = record { id = 61; networks = (70, 42) ∷ [] } ∷ [];
  aggregates = [];
  instances = deployed ∷ [];
}

-- The third port is on another switch.
abbrev split_lab : Tables String
split_lab = record lab {
  switchports =
      switchport 20 30 "Eth1/1" ∷ switchport 21 30 "Eth1/2" ∷ switchport 22 31 "Eth1/3" ∷ [];
}

abbrev wired : List (HostPort × SwitchPort)
wired =
    (port 11 (some 21) "ens2", switchport 21 30 "Eth1/2")
    ∷ (port 12 (some 22) "ens3", switchport 22 30 "Eth1/3")
    ∷ []

abbrev first_wired : HostPort × SwitchPort
first_wired = (port 10 (some 20) "ens1", switchport 20 30 "Eth1/1")

abbrev lab_switch : Switch
lab_switch = switch_of_id 30 "10.0.0.2"

abbrev header : String → String
header text = text

test_two_switches :
    (mgmt_network_config split_lab 1 >>= nx_run_network_task split_lab header) ≡ none
unfolding mgmt_network_config nx_run_network_task
test_two_switches = refl

-- The third port, which the template does not name, is told of no allowed VLAN, so that it keeps its own.
test_prod :
    (prod_network_config lab 1 60 >>= nx_run_network_task lab header)
    ≡ some (
        execute header (
          command_with lab_switch (
            "interface Eth1/1" ∷ "switchport mode trunk" ∷ "switchport trunk allowed vlan 99,105"
            ∷ "switchport trunk native vlan 105" ∷ "interface Eth1/2" ∷ "switchport mode trunk"
            ∷ "switchport trunk allowed vlan 99,105" ∷ "switchport trunk native vlan 105"
            ∷ "interface Eth1/3" ∷ "switchport mode trunk" ∷ "no switchport trunk native vlan"
            ∷ "copy run start" ∷ []))
        ∷ [])
unfolding prod_network_config nx_run_network_task
test_prod = refl

mgmt_network_config_applied_example :
    (mgmt_network_config lab 1 >>= nx_run_network_task lab header)
    ≡ some
        (execute header (command_with lab_switch (lines_of mgmt_lines (first_wired ∷ wired))) ∷ [])
mgmt_network_config_applied_example =
    mgmt_network_config_applied lab header 1 lab_switch first_wired wired (vlan 41 99) (vlan 40 98)
      (
        refl,
        refl,
        ((refl, refl, refl, refl), ((refl, refl, refl, refl), ((refl, refl, refl, refl), tt))),
        refl,
      )
      (refl, refl) (refl, refl)

empty_network_config_applied_example :
    (empty_network_config lab 1 >>= nx_run_network_task lab header)
    ≡ some (
        execute header (
          command_with lab_switch
            (lines_of empty_lines (first_wired ∷ wired) ++ "copy run start" ∷ []))
        ∷ [])
empty_network_config_applied_example =
    empty_network_config_applied lab header 1 lab_switch first_wired wired (vlan 41 99)
      (
        refl,
        refl,
        ((refl, refl, refl, refl), ((refl, refl, refl, refl), ((refl, refl, refl, refl), tt))),
        refl,
      )
      (refl, refl)

abbrev two_ports : NetworkConfig
two_ports = record {
  bondgroups = record { member_host_ports = 10 ∷ 12 ∷ []; vlans = [] } ∷ [];
  persist = false;
}

abbrev two_requests : List Request
two_requests =
    execute header (
      command_with lab_switch (
        "interface Eth1/1" ∷ "switchport mode trunk" ∷ "no switchport trunk native vlan"
        ∷ "interface Eth1/3" ∷ "switchport mode trunk" ∷ "no switchport trunk native vlan" ∷ []))
    ∷ []

two_run : nx_run_network_task lab header two_ports ≡ some two_requests
unfolding nx_run_network_task
two_run = refl

run_one_switch_example : (length two_requests ≤ 1) × (◌≡◌ {A = ℕ} 30 30)
run_one_switch_example = run_one_switch lab header two_ports 10 12 30 30 two_run refl refl refl refl

abbrev prod_groups : List BondGroup
prod_groups =
    record {
      member_host_ports = 10 ∷ 11 ∷ [];
      vlans = record { vlan = 42; tagged = false } ∷ record { vlan = 41; tagged = true } ∷ [];
    }
    ∷ lone 12
    ∷ []

prod_built :
    prod_network_config lab 1 60 ≡ some (record { bondgroups = prod_groups; persist = true })
unfolding prod_network_config
prod_built = refl

prod_network_config_builds_example :
    (i : Instance String) × (m : NetworkAssignmentMap) × (groups : List BondGroup) × (find_row
        (λ i. i.id)
        60
        lab.instances
      ≡ some i)
    × (find_row (λ m. m.id) i.network_data lab.network_assignments ≡ some m)
    × Pairwise (Built lab (ports lab 1) m.networks) i.config.connections groups
    × (prod_groups ≡ groups ++ map lone (select (λ p. not (holds p groups)) (ids_of (ports lab 1))))
    × (◌≡◌ {A = Bool} true true)
prod_network_config_builds_example = prod_network_config_builds lab 1 60 prod_built
