-- ===== src/Network/Applied/Stages.antt =====
-- deploy_host.rs and cisco.rs together: the commands for the stages of a deployment and for a cleanup.
use Prim.Native.String.{◌++◌ as append}
use laas_reflab.Prelude.{
  ◌≡◌, refl, sym, ap, ◌∙◌, arith, String, true, Option, none, some, List, [], ◌∷◌, ◌++◌, append-[],
  inl, inr, ==_iff, Bool-cases,
}
use laas_reflab.Models.Rows.{ℤ, pos, negsuc}
use laas_reflab.Models.Inventory.Vlan.{Vlan}
use laas_reflab.Models.Inventory.HostPort.{HostPort}
use laas_reflab.Models.JsonModel.{SwitchPort}
use laas_reflab.Network.{vlan_numbered, same_int}
use laas_reflab.Network.Commands.{NxCommand, configure_port}
use laas_reflab.Network.Applied.{configure_all}

abbrev pub lines_of : (String → List String) → List (HostPort × SwitchPort) → List String
lines_of lines [] = []
lines_of lines ((p, sp) ∷ ps) = lines sp.name ++ lines_of lines ps

append-append : (xs ys zs : List String) → (xs ++ ys) ++ zs ≡ xs ++ (ys ++ zs)
append-append [] ys zs = refl
append-append (x ∷ xs) ys zs = ap (λ l. x ∷ l) (append-append xs ys zs)

pub configure_all-lines_of :
    (lines : String → List String) (g : Option ℤ × List ℤ) (ps : List (HostPort × SwitchPort))
    (nx : NxCommand)
    → ((name : String) (nx : NxCommand)
        → configure_port name g nx ≡ record nx { inputs = nx.inputs ++ lines name })
    → configure_all g ps nx ≡ record nx { inputs = nx.inputs ++ lines_of lines ps }
configure_all-lines_of lines g [] nx h =
    ap (λ l. record nx { inputs = l }) (sym (append-[] nx.inputs))
configure_all-lines_of lines g ((p, sp) ∷ ps) nx h =
    ap (λ n. configure_all g ps n) (h sp.name nx)
    ∙ configure_all-lines_of lines g ps (record nx { inputs = nx.inputs ++ lines sp.name }) h
    ∙ ap (λ l. record nx { inputs = l })
        (append-append nx.inputs (lines sp.name) (lines_of lines ps))

-- What a port is told while the host boots from the network: 98 untagged, 99 tagged.
abbrev pub mgmt_lines : String → List String
mgmt_lines name =
    append "interface " name
    ∷ "switchport mode trunk"
    ∷ "switchport trunk allowed vlan 98,99"
    ∷ "switchport trunk native vlan 98"
    ∷ []

-- What it is told when the host is cleaned up: 99 tagged, and nothing else.
abbrev pub empty_lines : String → List String
empty_lines name =
    append "interface " name
    ∷ "switchport mode trunk"
    ∷ "switchport trunk allowed vlan 99"
    ∷ "no switchport trunk native vlan"
    ∷ []

pub configure_port-mgmt_lines :
    (name : String) (nx : NxCommand)
    → configure_port name (some (pos 98), pos 99 ∷ pos 98 ∷ []) nx
      ≡ record nx { inputs = nx.inputs ++ mgmt_lines name }
configure_port-mgmt_lines name nx =
    ap (λ l. record nx { inputs = l })
      (append-append ((nx.inputs ++ append "interface " name ∷ []) ++ "switchport mode trunk" ∷ [])
          ("switchport trunk allowed vlan 98,99" ∷ []) ("switchport trunk native vlan 98" ∷ [])
        ∙ append-append (nx.inputs ++ append "interface " name ∷ []) ("switchport mode trunk" ∷ [])
            _
        ∙ append-append nx.inputs (append "interface " name ∷ []) _)

pub configure_port-empty_lines :
    (name : String) (nx : NxCommand)
    → configure_port name (none, pos 99 ∷ []) nx
      ≡ record nx { inputs = nx.inputs ++ empty_lines name }
configure_port-empty_lines name nx =
    ap (λ l. record nx { inputs = l })
      (append-append ((nx.inputs ++ append "interface " name ∷ []) ++ "switchport mode trunk" ∷ [])
          ("switchport trunk allowed vlan 99" ∷ []) ("no switchport trunk native vlan" ∷ [])
        ∙ append-append (nx.inputs ++ append "interface " name ∷ []) ("switchport mode trunk" ∷ [])
            _
        ∙ append-append nx.inputs (append "interface " name ∷ []) _)

same_int_lem : (a b : ℤ) → same_int a b ≡ true → a ≡ b
same_int_lem (pos m) (pos n) e = ap pos ((==_iff m n).0 e)
same_int_lem (negsuc m) (negsuc n) e = ap negsuc ((==_iff m n).0 e)
same_int_lem (pos m) (negsuc n) e = absurd (ground arith)
same_int_lem (negsuc m) (pos n) e = absurd (ground arith)

pub vlan_numbered_lem :
    (i : ℤ) (vlans : List Vlan) {v : Vlan} → vlan_numbered i vlans ≡ some v → v.vlan_id ≡ i
vlan_numbered_lem i [] e = absurd (ground arith)
vlan_numbered_lem i (w ∷ ws) {v} e = elim (Bool-cases (same_int w.vlan_id i)) [
  | inl y ↦
      let here : w ≡ v = ground arith in sym (ap (λ u. u.vlan_id) here) ∙ same_int_lem w.vlan_id i y
  | inr n ↦ vlan_numbered_lem i ws {v = v} (ground arith)
]
