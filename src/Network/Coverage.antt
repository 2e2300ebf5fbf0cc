-- ===== src/Network/Coverage.antt =====
-- deploy_host.rs, `prod_network_config`: what the bond groups of a template come to, and the other ports.
use laas_reflab.Prelude.{
  ℕ, ◌≡◌, refl, sym, ap, subst, ◌∙◌, arith, String, Bool, true, not, ◌||◌, some, List, [], ◌∷◌,
  ◌++◌, map, any, contains, lookup, append-cons, append-[], select, Bool-cases, inl, inr,
}
use laas_reflab.Models.Rows.{pos, ◌>>=◌, >>=-eq-some, unwrap_or}
use laas_reflab.Models.Inventory.HostPort.{HostPort}
use laas_reflab.Models.Inventory.Vlan.{Vlan}
use laas_reflab.Models.Dashboard.{VlanConnectionConfig, BondGroupConfig}
use laas_reflab.Models.Dashboard.Instance.{Instance}
use laas_reflab.Models.Dashboard.NetworkAssignmentMap.{NetworkAssignmentMap}
use laas_reflab.Network.{
  VlanConnection, BondGroup, NetworkConfig, Tables, find_row, bond, ports, vlan_numbered,
  new_builder, new_group, with_vlan, with_port,
}
use laas_reflab.Network.Applied.Stages.{vlan_numbered_lem}
use laas_reflab.Network.Commands.OneSwitch.{find_row-key}
use laas_reflab.Network.Configs.{
  port_named, with_interfaces, with_networks, bg_config_to_bg, bond_configs, bond_others,
  prod_network_config,
}

-- Two lists of one length that are related entry by entry.
module _ {A B : Type 0} where
  abbrev pub Pairwise : (A → B → Type 0) → List A → List B → Type 0
  Pairwise R [] [] = Unit {0}
  Pairwise R (x ∷ xs) (y ∷ ys) = R x y × Pairwise R xs ys
  Pairwise R [] (y ∷ ys) = ⊥
  Pairwise R (x ∷ xs) [] = ⊥

abbrev pub ids_of : List HostPort → List ℕ
ids_of [] = []
ids_of (p ∷ ps) = p.id ∷ ids_of ps

abbrev pub lone : ℕ → BondGroup
lone port = record { member_host_ports = port ∷ []; vlans = [] }

abbrev pub holds : ℕ → List BondGroup → Bool
holds port groups = any (λ g. contains port g.member_host_ports) groups

contains-append :
    (i : ℕ) (xs ys : List ℕ) → contains i (xs ++ ys) ≡ (contains i xs || contains i ys)
contains-append i [] ys = refl
contains-append i (x ∷ xs) ys = ground (arith, contains-append i xs ys)

module _ (interfaces : List HostPort) where
  -- The port of a name among the host's.
  abbrev pub Named : String → ℕ → Type 0
  Named name port = (p : HostPort) × (port_named name interfaces ≡ some p) × (p.id ≡ port)

  with_interfaces_lem :
      (names : List String) (bg : BondGroup) {b : BondGroup}
      → with_interfaces interfaces names bg ≡ some b
      → (ps : List ℕ) × (b.member_host_ports ≡ bg.member_host_ports ++ ps)
        × (b.vlans ≡ bg.vlans)
        × Pairwise Named names ps
  with_interfaces_lem [] bg e =
      ([], ground (arith, append-[] bg.member_host_ports), ground arith, tt)
  with_interfaces_lem (name ∷ names) bg e =
      let (p, q, e₁) = >>=-eq-some (port_named name interfaces) _ e in
      let (ps, m, v, all) = with_interfaces_lem names (with_port p.id bg) e₁ in
      (p.id ∷ ps, m ∙ append-cons bg.member_host_ports p.id ps, v, ((p, q, refl), all))

module _ (networks : List (ℕ × ℕ)) where
  -- The VLAN that the template's network is assigned, tagged as the template says.
  abbrev pub Assigned : VlanConnectionConfig → VlanConnection → Type 0
  Assigned vcc v = (lookup vcc.network networks ≡ some v.vlan) × (v.tagged ≡ vcc.tagged)

  with_networks_lem :
      (vccs : List VlanConnectionConfig) (bg : BondGroup) {b : BondGroup}
      → with_networks networks vccs bg ≡ some b
      → (vs : List VlanConnection) × (b.vlans ≡ bg.vlans ++ vs)
        × (b.member_host_ports ≡ bg.member_host_ports)
        × Pairwise Assigned vccs vs
  with_networks_lem [] bg e = ([], ground (arith, append-[] bg.vlans), ground arith, tt)
  with_networks_lem (vcc ∷ vccs) bg e =
      let (vlan, q, e₁) = >>=-eq-some (lookup vcc.network networks) _ e in
      let v : VlanConnection = record { vlan = vlan; tagged = vcc.tagged } in
      let (vs, w, m, all) = with_networks_lem vccs (with_vlan v bg) e₁ in
      (v ∷ vs, w ∙ append-cons bg.vlans v vs, m, ((q, refl), all))

module _ {J : Type 0} (t : Tables J) (interfaces : List HostPort) (networks : List (ℕ × ℕ)) where
  -- A bond group is what its config says, with VLAN 99 tagged beside, which is the first row of the table
  -- that has this number.
  abbrev pub Built : BondGroupConfig → BondGroup → Type 0
  Built bgc g =
      (vs : List VlanConnection) × (ipmi : Vlan) × (vlan_numbered (pos 99) t.vlans ≡ some ipmi)
      × (ipmi.vlan_id ≡ pos 99)
      × (g.vlans ≡ vs ++ record { vlan = ipmi.id; tagged = true } ∷ [])
      × Pairwise (Assigned networks) bgc.connects_to vs
      × Pairwise (Named interfaces) bgc.member_interfaces g.member_host_ports

  bg_config_to_bg-Built :
      (bgc : BondGroupConfig) {g : BondGroup}
      → bg_config_to_bg t bgc interfaces networks ≡ some g
      → Built bgc g
  bg_config_to_bg-Built bgc {g} e =
      let (b, q, e₁) =
        >>=-eq-some (with_interfaces interfaces bgc.member_interfaces new_group) _ e in
      let (c, q₁, e₂) = >>=-eq-some (with_networks networks bgc.connects_to b) _ e₁ in
      let (ipmi, q₂, e₃) = >>=-eq-some (vlan_numbered (pos 99) t.vlans) _ e₂ in
      let (ps, m, v, named) = with_interfaces_lem interfaces bgc.member_interfaces new_group q in
      let (vs, w, n, assigned) = with_networks_lem networks bgc.connects_to b q₁ in
      let vlans : c.vlans ≡ vs = w ∙ ap (λ l. l ++ vs) v in
      let members : g.member_host_ports ≡ ps = ground arith in
      (
        vs,
        ipmi,
        q₂,
        vlan_numbered_lem (pos 99) t.vlans q₂,
        ground arith,
        assigned,
        subst (Pairwise (Named interfaces) bgc.member_interfaces) (sym members) named,
      )

  bond_configs_lem :
      (cs : List BondGroupConfig) (builder : NetworkConfig) (configured : List ℕ)
      {r : NetworkConfig × List ℕ}
      → bond_configs t interfaces networks cs builder configured ≡ some r
      → (gs : List BondGroup) × (r.0.bondgroups ≡ builder.bondgroups ++ gs)
        × ((i : ℕ) → contains i r.1 ≡ (contains i configured || holds i gs))
        × Pairwise Built cs gs
  bond_configs_lem [] builder configured e =
      ([], ground (arith, append-[] builder.bondgroups), λ i. ground arith, tt)
  bond_configs_lem (c ∷ cs) builder configured {r} e =
      let (g, q, e₁) = >>=-eq-some (bg_config_to_bg t c interfaces networks) _ e in
      let (gs, groups, has, built) =
        bond_configs_lem cs (bond g builder) (configured ++ g.member_host_ports) e₁ in
      (
        g ∷ gs,
        groups ∙ append-cons builder.bondgroups g gs,
        λ i. ground (arith, has i, contains-append i configured g.member_host_ports),
        (bg_config_to_bg-Built c q, built),
      )

bond_others_lem :
    (ps : List HostPort) (configured : List ℕ) (b : NetworkConfig)
    → (bond_others ps configured b).bondgroups
      ≡ b.bondgroups ++ map lone (select (λ i. not (contains i configured)) (ids_of ps))
bond_others_lem [] configured b = sym (append-[] b.bondgroups)
bond_others_lem (p ∷ ps) configured b = elim (Bool-cases (contains p.id configured)) [
  | inl y ↦ ground (arith, bond_others_lem ps configured b)
  | inr n ↦
      let more =
        append-cons b.bondgroups (lone p.id)
          (map lone (select (λ i. not (contains i configured)) (ids_of ps))) in
      ground (arith, bond_others_lem ps configured (bond (lone p.id) b))
]

select-same : (f g : ℕ → Bool) (xs : List ℕ) → ((i : ℕ) → f i ≡ g i) → select f xs ≡ select g xs
select-same f g [] h = refl
select-same f g (x ∷ xs) h = ground (arith, h x, select-same f g xs h)

module _ {J : Type 0} (t : Tables J) where
  -- When `prod_network_config` succeeds, its bond groups are these, and it is to be persisted: for each
  -- config of the instance in turn a group with the host's ports of its names and the VLANs that the
  -- assignments give for its networks, tagged as it says, and the VLAN numbered 99, tagged; then a group of its
  -- own, with no VLAN, for each of the host's ports that is in none of these.
  pub prod_network_config_builds :
      (host deployed_as : ℕ) {c : NetworkConfig}
      → prod_network_config t host deployed_as ≡ some c
      → (i : Instance J) × (m : NetworkAssignmentMap) × (groups : List BondGroup) × (find_row
            (λ i. i.id)
            deployed_as
            t.instances
          ≡ some i)
        × (find_row (λ m. m.id) i.network_data t.network_assignments ≡ some m)
        × Pairwise (Built t (ports t host) m.networks) i.config.connections groups
        × (c.bondgroups
            ≡ groups ++ map lone (select (λ p. not (holds p groups)) (ids_of (ports t host))))
        × (c.persist ≡ true)
  unfolding prod_network_config
  prod_network_config_builds host deployed_as {c} e =
      let (h, q, e₁) = >>=-eq-some (find_row (λ h. h) host t.hosts) _ e in
      let (i, q₁, e₂) = >>=-eq-some (find_row (λ i. i.id) deployed_as t.instances) _ e₁ in
      let (m, q₂, e₃) =
        >>=-eq-some (find_row (λ m. m.id) i.network_data t.network_assignments) _ e₂ in
      let ps : List HostPort = ports t h in
      let (r, q₃, e₄) =
        >>=-eq-some (bond_configs t ps m.networks i.config.connections new_builder []) _ e₃ in
      let (gs, groups, has, built) =
        bond_configs_lem t ps m.networks i.config.connections new_builder [] q₃ in
      let same = find_row-key (λ h. h) host t.hosts q in
      let others = bond_others_lem ps r.1 r.0 in
      let sorted =
        select-same (λ p. not (contains p r.1)) (λ p. not (holds p gs)) (ids_of ps)
          (λ p. ap not (has p)) in
      let whole : c.bondgroups ≡ gs ++ map lone (select (λ p. not (holds p gs)) (ids_of ps)) =
        sym (ap (λ o. unwrap_or [] (o >>= λ c. some c.bondgroups)) e₄)
        ∙ others
        ∙ ap (λ l. l ++ map lone (select (λ p. not (contains p r.1)) (ids_of ps))) groups
        ∙ ap (λ l. gs ++ map lone l) sorted in
      (
        i,
        m,
        gs,
        q₁,
        q₂,
        subst (λ n. Pairwise (Built t (ports t n) m.networks) i.config.connections gs) same built,
        subst
            (λ n.
              c.bondgroups ≡ gs ++ map lone (select (λ p. not (holds p gs)) (ids_of (ports t n))))
            same whole,
        ground arith,
      )
