-- ===== src/Network/Applied.antt =====
-- deploy_host.rs and cisco.rs together: what a switch is told when a host gets one of the configs in which
-- every port is a bond group of its own.
pub mod Stages
pub mod Sent
use laas_reflab.Prelude.{
  ℕ, ◌≡◌, ◌⊎◌, inl, inr, refl, sym, ap, ◌∙◌, arith, String, Bool, true, false, Option, none, some,
  List, [], ◌∷◌, ◌++◌, ◌==◌, ==-refl, All, put, append-cons, append-[], map,
}
use laas_reflab.Models.Rows.{ℤ, ◌>>=◌}
use laas_reflab.Models.Inventory.HostPort.{HostPort}
use laas_reflab.Models.JsonModel.{Switch, SwitchPort}
use laas_reflab.Network.{VlanConnection, BondGroup, NetworkConfig, Tables, find_row, bond}
use laas_reflab.Network.Configs.{bond_each}
use laas_reflab.Network.Commands.{
  NxCommand, and_then, configure_port, run_groups, command_for, gather,
}

module _ {J : Type 0} (t : Tables J) where
  -- A port of a row of its own that hangs on the given port of the switch.
  abbrev pub Wired : Switch → HostPort × SwitchPort → Type 0
  Wired s (p, sp) =
      (find_row (λ q. q.id) p.id t.host_ports ≡ some p)
      × (p.switchport ≡ some sp.id)
      × (find_row (λ q. q.id) sp.id t.switchports ≡ some sp)
      × (sp.for_switch ≡ s.id)

abbrev pub alone : List VlanConnection → HostPort × SwitchPort → BondGroup
alone vlans (p, sp) = record { member_host_ports = p.id ∷ []; vlans = vlans }

abbrev pub configure_all : Option ℤ × List ℤ → List (HostPort × SwitchPort) → NxCommand → NxCommand
configure_all g [] nx = nx
configure_all g ((p, sp) ∷ ps) nx = configure_all g ps (configure_port sp.name g nx)

module _ {J : Type 0} (t : Tables J) (s : Switch) (vlans : List VlanConnection) where
  pub run_groups-cons :
      (p : HostPort) (sp : SwitchPort) (g : Option ℤ × List ℤ) (rest : List BondGroup)
      (o : Option ℕ) (switches : List (ℕ × NxCommand))
      → find_row (λ w. w.id) s.id t.switches ≡ some s
      → gather t vlans none [] ≡ some g
      → Wired t s (p, sp)
      → (o ≡ none) ⊎ (o ≡ some s.id)
      → run_groups t (alone vlans (p, sp) ∷ rest) o switches
        ≡ run_groups t rest
            (some s.id)
            (put s.id (configure_port sp.name g (command_for s switches)) switches)
  run_groups-cons p sp g rest o switches known gathers (a, b, c, d) seen =
      ground (arith, ==-refl s.id)

  pub run_groups-map :
      (ps : List (HostPort × SwitchPort)) (g : Option ℤ × List ℤ) (nx : NxCommand)
      → find_row (λ w. w.id) s.id t.switches ≡ some s
      → gather t vlans none [] ≡ some g
      → All (Wired t s) ps
      → run_groups t (map (alone vlans) ps) (some s.id) ((s.id, nx) ∷ [])
        ≡ some ((s.id, configure_all g ps nx) ∷ [])
  run_groups-map [] g nx known gathers wired = refl
  run_groups-map ((p, sp) ∷ ps) g nx known gathers (w, wired) =
      run_groups-cons p sp g (map (alone vlans) ps) (some s.id) ((s.id, nx) ∷ []) known gathers w
        (inr refl)
      ∙ ground (
        arith,
        ==-refl s.id,
        run_groups-map ps g (configure_port sp.name g nx) known gathers wired,
      )

  pub bond_each-map :
      (group : HostPort → Option BondGroup) (ps : List (HostPort × SwitchPort)) (c : NetworkConfig)
      → ((p : HostPort) → group p ≡ some (record { member_host_ports = p.id ∷ []; vlans = vlans }))
      → bond_each group (map (λ x. x.0) ps) c
        ≡ some (record c { bondgroups = c.bondgroups ++ map (alone vlans) ps })
  bond_each-map group [] c h = ground (arith, append-[] c.bondgroups)
  bond_each-map group ((p, sp) ∷ ps) c h =
      let b : BondGroup = alone vlans (p, sp) in
      ap (λ o. o >>= λ b. bond_each group (map (λ x. x.0) ps) (bond b c)) (h p)
      ∙ bond_each-map group ps (bond b c) h
      ∙ ap (λ l. some (record c { bondgroups = l }))
          (append-cons c.bondgroups b (map (alone vlans) ps))
