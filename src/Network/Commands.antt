-- ===== src/Network/Commands.antt =====
-- src/workflows/src/resource_management/cisco.rs: the commands that a config comes to. The map of commands
-- by switch is a list of pairs, in the order in which the switches came. The lock of a switch is left out,
-- and base64 is a parameter. A panic is `none`: it comes before anything is sent.
pub mod OneSwitch
use Prim.Native.String.{◌++◌ as append}
use laas_reflab.Prelude.{
  ℕ, zero, suc, ◌%◌, Bool, true, false, String, Option, none, some, List, [], ◌∷◌, ◌++◌, map, ◌==◌,
  ltb, if◌then◌else◌, lookup, put, get_elem?,
}
use laas_reflab.Models.Rows.{ℤ, pos, negsuc, ◌>>=◌, unwrap_or}
use laas_reflab.Models.JsonModel.{Switch}
use laas_reflab.CloudInit.{le}
use laas_reflab.Network.{VlanConnection, BondGroup, NetworkConfig, Tables, find_row}

pub record NxCommand : Type 0 where
  pub inputs : List String
  pub url : String
  pub user : String
  pub password : String

-- `NXCommand::for_switch` and `with_credentials`.
abbrev pub for_switch : String → String → String → NxCommand
for_switch dn username password = record {
  inputs = [];
  url = append "http://" (append dn "/ins");
  user = username;
  password = password;
}

abbrev pub and_then : String → NxCommand → NxCommand
and_then command nx = record nx { inputs = nx.inputs ++ command ∷ [] }

-- `intersperse` and `reduce`.
abbrev pub intersperse : String → List String → List String
intersperse separator [] = []
intersperse separator (s ∷ []) = s ∷ []
intersperse separator (s ∷ r ∷ rest) = s ∷ separator ∷ intersperse separator (r ∷ rest)

abbrev pub fold_text : String → List String → String
fold_text acc [] = acc
fold_text acc (e ∷ rest) = fold_text (append acc e) rest

abbrev pub reduce : List String → Option String
reduce [] = none
reduce (s ∷ rest) = some (fold_text s rest)

-- What `execute` sends: the address, its header `Authorization`, and the field `input`.
pub record Request : Type 0 where
  pub to : String
  pub authorization : String
  pub input : Option String

abbrev pub execute : (String → String) → NxCommand → Request
execute base64 nx = record {
  to = nx.url;
  authorization = append "Basic " (base64 (append nx.user (append ":" nx.password)));
  input = reduce (intersperse " ; " nx.inputs);
}

-- The text of an `i16`, whose magnitude has five digits at most.
abbrev digits : List String
digits = "0" ∷ "1" ∷ "2" ∷ "3" ∷ "4" ∷ "5" ∷ "6" ∷ "7" ∷ "8" ∷ "9" ∷ []

abbrev pub digit : ℕ → String
digit n = unwrap_or "" (get_elem? digits n)

abbrev pub decimal : ℕ → ℕ → String → String
decimal zero n text = text
decimal (suc more) n text =
    let longer = decimal more (Prim.Native.Nat.◌/◌ n 10) (append (digit (n % 10)) text) in
    if ltb n 10 then append (digit n) text else longer

abbrev pub int_text : ℤ → String
int_text (pos n) = decimal 5 n ""
int_text (negsuc n) = append "-" (decimal 5 (suc n) "")

-- `sort()`.
abbrev pub insert_sorted : ℤ → List ℤ → List ℤ
insert_sorted v [] = v ∷ []
insert_sorted v (w ∷ ws) = let rest = insert_sorted v ws in if le v w then v ∷ w ∷ ws else w ∷ rest

abbrev pub sort : List ℤ → List ℤ
sort [] = []
sort (v ∷ vs) = insert_sorted v (sort vs)

-- The `match` on `for_switch`, with the `assert_eq!`.
abbrev pub on_switch : ℕ → Option ℕ → Option (Option ℕ)
on_switch switch none = some (some switch)
on_switch switch (some prior) = if prior == switch then some (some prior) else none

-- `native_vlan.replace(…)` with the `assert!` around it.
abbrev pub replace_native : Bool → ℤ → Option ℤ → Option (Option ℤ)
replace_native true vlan_id native = some native
replace_native false vlan_id none = some (some vlan_id)
replace_native false vlan_id (some w) = none

abbrev pub allow : Option String → NxCommand → NxCommand
allow none nx = nx
allow (some vlans) nx = and_then (append "switchport trunk allowed vlan " vlans) nx

abbrev pub set_native : Option ℤ → NxCommand → NxCommand
set_native (some nvlid) nx = and_then (append "switchport trunk native vlan " (int_text nvlid)) nx
set_native none nx = and_then "no switchport trunk native vlan" nx

abbrev pub configure_port : String → Option ℤ × List ℤ → NxCommand → NxCommand
configure_port name (native, allowed) nx = set_native native (
    allow (reduce (intersperse "," (map int_text (sort allowed))))
      (and_then "switchport mode trunk" (and_then (append "interface " name) nx)))

abbrev pub command_for : Switch → List (ℕ × NxCommand) → NxCommand
command_for s switches = unwrap_or (for_switch s.ip s.user s.pass) (lookup s.id switches)

abbrev pub coalesce : Bool → ℕ × NxCommand → NxCommand
coalesce persist (id, nx) = if persist then and_then "copy run start" nx else nx

module _ {J : Type 0} (t : Tables J) where
  abbrev pub see_port : Option ℕ → Option ℕ → Option (Option ℕ)
  see_port none switch = some switch
  see_port (some id) switch = do
    sp ← find_row (λ s. s.id) id t.switchports
    on_switch sp.for_switch switch

  abbrev pub see_members : List ℕ → Option ℕ → Option (Option ℕ)
  see_members [] switch = some switch
  see_members (member ∷ rest) switch = do
    hp ← find_row (λ p. p.id) member t.host_ports
    seen ← see_port hp.switchport switch
    see_members rest seen

  -- The loop over the connections, with `native_vlan` and `allowed_vlans`.
  abbrev pub gather : List VlanConnection → Option ℤ → List ℤ → Option (Option ℤ × List ℤ)
  gather [] native allowed = some (native, allowed)
  gather (connection ∷ rest) native allowed = do
    vlan ← find_row (λ v. v.id) connection.vlan t.vlans
    now_native ← replace_native connection.tagged vlan.vlan_id native
    gather rest now_native (allowed ++ vlan.vlan_id ∷ [])

  abbrev pub run_port : List VlanConnection → ℕ → NxCommand → Option NxCommand
  run_port vlans port nx = do
    hp ← find_row (λ p. p.id) port t.host_ports
    id ← hp.switchport
    sp ← find_row (λ s. s.id) id t.switchports
    gathered ← gather vlans none []
    some (configure_port sp.name gathered nx)

  abbrev pub run_ports : List VlanConnection → List ℕ → NxCommand → Option NxCommand
  run_ports vlans [] nx = some nx
  run_ports vlans (port ∷ rest) nx = do done ← run_port vlans port nx; run_ports vlans rest done

  -- The outer loop, with `for_switch` and `switches`.
  abbrev pub run_groups :
      List BondGroup → Option ℕ → List (ℕ × NxCommand) → Option (List (ℕ × NxCommand))
  run_groups [] switch switches = some switches
  run_groups (group ∷ rest) switch switches = do
    seen ← see_members group.member_host_ports switch
    id ← seen
    s ← find_row (λ w. w.id) id t.switches
    nx ← run_ports group.vlans group.member_host_ports (command_for s switches)
    run_groups rest seen (put s.id nx switches)

  -- The requests that are sent, in the order in which the map gives them.
  unfoldable pub nx_run_network_task : (String → String) → NetworkConfig → Option (List Request)
  nx_run_network_task base64 nc = do
    switches ← run_groups nc.bondgroups none []
    some (map (λ entry. execute base64 (coalesce nc.persist entry)) switches)
