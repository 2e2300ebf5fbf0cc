-- ===== src/Network/Applied/Sent.antt =====
-- deploy_host.rs and cisco.rs together: the one request that is sent when a host is to boot from the
-- network, and when it is cleaned up.
use laas_reflab.Prelude.{
  ℕ, ◌≡◌, refl, ap, ◌∙◌, arith, String, Bool, true, false, Option, none, some, List, [], ◌∷◌, ◌++◌,
  All, map, inl,
}
use laas_reflab.Models.Rows.{ℤ, pos, ◌>>=◌}
use laas_reflab.Models.Inventory.Vlan.{Vlan}
use laas_reflab.Models.Inventory.HostPort.{HostPort}
use laas_reflab.Models.JsonModel.{Switch, SwitchPort}
use laas_reflab.Network.{
  VlanConnection, Tables, find_row, ports, vlan_numbered, connected, new_builder,
}
use laas_reflab.Network.Configs.{
  bond_each, mgmt_network_config, empty_network_config, mgmt_group, empty_group,
}
use laas_reflab.Network.Commands.{
  NxCommand, execute, for_switch, and_then, configure_port, gather, nx_run_network_task, coalesce,
}
use laas_reflab.Network.Applied.{
  Wired, alone, configure_all, run_groups-cons, run_groups-map, bond_each-map,
}
use laas_reflab.Network.Applied.Stages.{
  lines_of, mgmt_lines, empty_lines, configure_all-lines_of, configure_port-mgmt_lines,
  configure_port-empty_lines, vlan_numbered_lem,
}

abbrev pub command_with : Switch → List String → NxCommand
command_with s lines = record (for_switch s.ip s.user s.pass) { inputs = lines }

module _ {J : Type 0} (t : Tables J) (base64 : String → String) where
  -- Every port of the host hangs on a port of the switch, and the switch is known.
  abbrev pub Attached : ℕ → Switch → List (HostPort × SwitchPort) → Type 0
  Attached host s ps =
      (find_row (λ h. h) host t.hosts ≡ some host)
      × (ports t host ≡ map (λ x. x.0) ps)
      × All (Wired t s) ps
      × (find_row (λ w. w.id) s.id t.switches ≡ some s)

  -- The rows of a VLAN by its number and by its id.
  abbrev pub VlanRow : ℕ → Vlan → Type 0
  VlanRow n v =
      (vlan_numbered (pos n) t.vlans ≡ some v) × (find_row (λ w. w.id) v.id t.vlans ≡ some v)

  pub nx_run_network_task-alone :
      (s : Switch) (vlans : List VlanConnection) (g : Option ℤ × List ℤ) (persist : Bool)
      (x : HostPort × SwitchPort) (ps : List (HostPort × SwitchPort))
      → find_row (λ w. w.id) s.id t.switches ≡ some s
      → gather t vlans none [] ≡ some g
      → All (Wired t s) (x ∷ ps)
      → nx_run_network_task t base64
          (record { bondgroups = map (alone vlans) (x ∷ ps); persist = persist })
        ≡ some (
            execute base64
              (coalesce persist (s.id, configure_all g (x ∷ ps) (for_switch s.ip s.user s.pass)))
            ∷ [])
  unfolding nx_run_network_task
  nx_run_network_task-alone s vlans g persist (p, sp) ps known gathers (w, wired) =
      ap
        (λ r.
          r >>= λ switches. some (map (λ entry. execute base64 (coalesce persist entry)) switches))
        (run_groups-cons t s vlans p sp g (map (alone vlans) ps) none [] known gathers w (inl refl)
          ∙ run_groups-map t s vlans ps g (configure_port sp.name g (for_switch s.ip s.user s.pass))
              known gathers wired)

  mgmt_network_config_lem :
      (host : ℕ) (s : Switch) (ps : List (HostPort × SwitchPort)) (ipmi native : Vlan)
      → Attached host s ps
      → VlanRow 99 ipmi
      → VlanRow 98 native
      → mgmt_network_config t host
        ≡ some (record {
          bondgroups = map (alone (connected true ipmi ∷ connected false native ∷ [])) ps;
          persist = false;
        })
  unfolding mgmt_network_config
  mgmt_network_config_lem host s ps ipmi native (known, q, wired, k) (a, a') (b, b') =
      let bonded =
        bond_each-map t s (connected true ipmi ∷ connected false native ∷ []) (mgmt_group t) ps
          new_builder (λ p. ground (arith, a, b)) in
      let bonded' : bond_each (mgmt_group t) (ports t host) new_builder
          ≡ some (record {
            bondgroups = map (alone (connected true ipmi ∷ connected false native ∷ [])) ps;
            persist = true;
          }) =
        ap (λ l. bond_each (mgmt_group t) l new_builder) q ∙ bonded in
      ap
        (λ o. o >>= λ h. bond_each (mgmt_group t) (ports t h) new_builder >>= λ c.
          some (record { bondgroups = c.bondgroups; persist = false }))
        known
      ∙ ap (λ o. o >>= λ c. some (record { bondgroups = c.bondgroups; persist = false })) bonded'

  empty_network_config_lem :
      (host : ℕ) (s : Switch) (ps : List (HostPort × SwitchPort)) (ipmi : Vlan)
      → Attached host s ps
      → VlanRow 99 ipmi
      → empty_network_config t host
        ≡ some (record { bondgroups = map (alone (connected true ipmi ∷ [])) ps; persist = true })
  unfolding empty_network_config
  empty_network_config_lem host s ps ipmi (known, q, wired, k) (a, a') =
      let vlans : List VlanConnection = connected true ipmi ∷ [] in
      let bonded =
        bond_each-map t s vlans (empty_group t) ps new_builder (λ p. ground (arith, a)) in
      ap
        (λ o. o >>= λ h. bond_each (empty_group t) (ports t h) new_builder >>= λ c.
          some (record { bondgroups = c.bondgroups; persist = true }))
        known
      ∙ ap
          (λ l. bond_each (empty_group t) l new_builder >>= λ c.
            some (record { bondgroups = c.bondgroups; persist = true }))
          q
      ∙ ap (λ o. o >>= λ c. some (record { bondgroups = c.bondgroups; persist = true })) bonded

  gather-mgmt :
      (ipmi native : Vlan)
      → VlanRow 99 ipmi
      → VlanRow 98 native
      → gather t (connected true ipmi ∷ connected false native ∷ []) none []
        ≡ some (some (pos 98), pos 99 ∷ pos 98 ∷ [])
  gather-mgmt ipmi native (a, a') (b, b') =
      let x = vlan_numbered_lem (pos 99) t.vlans a in
      let y = vlan_numbered_lem (pos 98) t.vlans b in ground (arith, a', b', x, y)

  gather-empty :
      (ipmi : Vlan)
      → VlanRow 99 ipmi
      → gather t (connected true ipmi ∷ []) none [] ≡ some (none, pos 99 ∷ [])
  gather-empty ipmi (a, a') = let x = vlan_numbered_lem (pos 99) t.vlans a in ground (arith, a', x)

  -- When every port of a host hangs on one switch and VLANs 98 and 99 are known, `mgmt_network_config`
  -- succeeds, and running it sends one request, to this switch: for each port in turn, to be a trunk
  -- that allows 98 and 99 and has 98 for its native VLAN.
  pub mgmt_network_config_applied :
      (host : ℕ) (s : Switch) (x : HostPort × SwitchPort) (ps : List (HostPort × SwitchPort))
      (ipmi native : Vlan)
      → Attached host s (x ∷ ps)
      → VlanRow 99 ipmi
      → VlanRow 98 native
      → (mgmt_network_config t host >>= nx_run_network_task t base64)
        ≡ some (execute base64 (command_with s (lines_of mgmt_lines (x ∷ ps))) ∷ [])
  mgmt_network_config_applied host s x ps ipmi native at a b =
      let (known, q, wired, k) = at in
      ap (λ o. o >>= nx_run_network_task t base64)
        (mgmt_network_config_lem host s (x ∷ ps) ipmi native at a b)
      ∙ nx_run_network_task-alone s (connected true ipmi ∷ connected false native ∷ [])
          (some (pos 98), pos 99 ∷ pos 98 ∷ []) false x ps k (gather-mgmt ipmi native a b) wired
      ∙ ap (λ nx. some (execute base64 nx ∷ []))
          (configure_all-lines_of mgmt_lines (some (pos 98), pos 99 ∷ pos 98 ∷ []) (x ∷ ps)
            (for_switch s.ip s.user s.pass) configure_port-mgmt_lines)

  -- When every port of a host hangs on one switch and VLAN 99 is known, `empty_network_config`
  -- succeeds, and running it sends one request, to this switch: for each port in turn, to be a trunk
  -- that allows 99 alone and has no native VLAN, and then to save the configuration.
  pub empty_network_config_applied :
      (host : ℕ) (s : Switch) (x : HostPort × SwitchPort) (ps : List (HostPort × SwitchPort))
      (ipmi : Vlan)
      → Attached host s (x ∷ ps)
      → VlanRow 99 ipmi
      → (empty_network_config t host >>= nx_run_network_task t base64)
        ≡ some (
            execute base64 (command_with s (lines_of empty_lines (x ∷ ps) ++ "copy run start" ∷ []))
            ∷ [])
  empty_network_config_applied host s x ps ipmi at a =
      let (known, q, wired, k) = at in
      ap (λ o. o >>= nx_run_network_task t base64)
        (empty_network_config_lem host s (x ∷ ps) ipmi at a)
      ∙ nx_run_network_task-alone s (connected true ipmi ∷ []) (none, pos 99 ∷ []) true x ps k
          (gather-empty ipmi a) wired
      ∙ ap (λ nx. some (execute base64 (and_then "copy run start" nx) ∷ []))
          (configure_all-lines_of empty_lines (none, pos 99 ∷ []) (x ∷ ps)
            (for_switch s.ip s.user s.pass) configure_port-empty_lines)
