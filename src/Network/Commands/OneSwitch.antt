-- ===== src/Network/Commands/OneSwitch.antt =====
-- cisco.rs, `nx_run_network_task`: a run that ends is about one switch.
use laas_reflab.Prelude.{
  ℕ, subst, put, ◌≤◌, ◌≡◌, refl, sym, ap, ◌∙◌, ◌⊎◌, inl, inr, arith, String, Bool, true, Option,
  none, some, List, [], ◌∷◌, map, ◌==◌, contains, length, any, ==_iff, Bool-cases,
}
use laas_reflab.Models.Rows.{◌>>=◌, >>=-eq-some}
use laas_reflab.Network.{BondGroup, NetworkConfig, Tables, find_row}
use laas_reflab.Network.Commands.{
  NxCommand, Request, execute, on_switch, see_port, see_members, run_ports, run_groups, command_for,
  coalesce, nx_run_network_task,
}

module _ {A : Type 0} (key : A → ℕ) where
  pub find_row-key : (id : ℕ) (rows : List A) {a : A} → find_row key id rows ≡ some a → key a ≡ id
  find_row-key id [] e = absurd (ground arith)
  find_row-key id (row ∷ rows) {a} e = elim (Bool-cases (key row == id)) [
    | inl t ↦ let here : row ≡ a = ground arith in sym (ap key here) ∙ (==_iff (key row) id).0 t
    | inr f ↦ find_row-key id rows (ground arith)
  ]

module _ {J : Type 0} (t : Tables J) where
  -- The switch that a port hangs on, if it does.
  abbrev pub switch_of : ℕ → Option ℕ
  switch_of port = do
    hp ← find_row (λ p. p.id) port t.host_ports
    id ← hp.switchport
    sp ← find_row (λ s. s.id) id t.switchports
    some sp.for_switch

  abbrev pub has_member : ℕ → List BondGroup → Bool
  has_member port groups = any (λ g. contains port g.member_host_ports) groups

  on_switch_lem :
      (s : ℕ) (o : Option ℕ) {r : Option ℕ}
      → on_switch s o ≡ some r
      → (r ≡ some s) × ((o ≡ none) ⊎ (o ≡ some s))
  on_switch_lem s none e = ground arith
  on_switch_lem s (some prior) e = ground (arith, ==_iff prior s)

  -- What is seen stays, and every member that hangs on a switch hangs on it.
  see_port_lem :
      (p : Option ℕ) (o : Option ℕ) {r : Option ℕ}
      → see_port t p o ≡ some r
      → ((s : ℕ) → o ≡ some s → r ≡ some s)
        × ((s : ℕ)
            → (p >>= λ id. find_row (λ x. x.id) id t.switchports >>= λ sp. some sp.for_switch)
              ≡ some s
            → r ≡ some s)
  see_port_lem none o e = (λ s q. ground arith, λ s q. absurd (ground arith))
  see_port_lem (some id) o {r} e =
      let (sp, q, e₁) = >>=-eq-some (find_row (λ x. x.id) id t.switchports) _ e in
      let (now, before) = on_switch_lem sp.for_switch o e₁ in
      (
        λ s h. ground arith,
        λ s h.
            let (sp', q', e₂) = >>=-eq-some (find_row (λ x. x.id) id t.switchports) _ h in
            ground arith,
      )

  see_members_lem :
      (ms : List ℕ) (o : Option ℕ) {r : Option ℕ}
      → see_members t ms o ≡ some r
      → ((s : ℕ) → o ≡ some s → r ≡ some s)
        × ((m s : ℕ) → contains m ms ≡ true → switch_of m ≡ some s → r ≡ some s)
  see_members_lem [] o e = (λ s q. ground arith, λ m s c q. absurd (ground arith))
  see_members_lem (x ∷ ms) o e =
      let (hp, found, e₁) = >>=-eq-some (find_row (λ p. p.id) x t.host_ports) _ e in
      let (seen, q, e₂) = >>=-eq-some (see_port t hp.switchport o) _ e₁ in
      let (keeps, here) = see_port_lem hp.switchport o q in
      let (later, others) = see_members_lem ms seen e₂ in
      (
        λ s h. later s (keeps s h),
        λ m s c w. elim (Bool-cases (x == m)) [
          | inl y ↦
              let same = (==_iff x m).0 y in
              later s (
                here s (
                  sym (
                    ap
                      (λ o'. o' >>= λ p. p.switchport >>= λ id.
                        find_row (λ y'. y'.id) id t.switchports >>= λ sp. some sp.for_switch)
                      found)
                  ∙ ap switch_of same
                  ∙ w))
          | inr n ↦ others m s (ground arith) w
        ],
      )

  -- The map has a command for no switch but the one that was seen.
  abbrev Only : Option ℕ → List (ℕ × NxCommand) → Type 0
  Only o switches =
      (switches ≡ []) ⊎ ((s : ℕ) × (nx : NxCommand) × (switches ≡ (s, nx) ∷ []) × (o ≡ some s))

  Only-put :
      (o r : Option ℕ) (id : ℕ) (nx : NxCommand) (switches : List (ℕ × NxCommand))
      → Only o switches
      → ((s : ℕ) → o ≡ some s → r ≡ some s)
      → r ≡ some id
      → Only r (put id nx switches)
  Only-put o r id nx switches (inl e) keeps q = inr (id, nx, ground arith, q)
  Only-put o r id nx switches (inr (s, nx', e, h)) keeps q =
      let same : r ≡ some s = keeps s h in inr (id, nx, ground (arith, ==_iff s id), q)

  run_groups_lem :
      (groups : List BondGroup) (o : Option ℕ) (switches r : List (ℕ × NxCommand))
      → Only o switches
      → run_groups t groups o switches ≡ some r
      → (o' : Option ℕ) × Only o' r
        × ((s : ℕ) → o ≡ some s → o' ≡ some s)
        × ((m s : ℕ) → has_member m groups ≡ true → switch_of m ≡ some s → o' ≡ some s)
  run_groups_lem [] o switches r only e =
      (o, subst (Only o) (ground arith) only, λ s q. q, λ m s c q. absurd (ground arith))
  run_groups_lem (g ∷ groups) o switches r only e =
      let (seen, q, e₁) = >>=-eq-some (see_members t g.member_host_ports o) _ e in
      let (id, q₁, e₂) = >>=-eq-some seen _ e₁ in
      let (w, q₂, e₃) = >>=-eq-some (find_row (λ w. w.id) id t.switches) _ e₂ in
      let (nx, q₃, e₄) =
        >>=-eq-some (run_ports t g.vlans g.member_host_ports (command_for w switches)) _ e₃ in
      let (keeps, members) = see_members_lem g.member_host_ports o q in
      let same = find_row-key (λ w. w.id) id t.switches q₂ in
      let here = Only-put o seen w.id nx switches only keeps (q₁ ∙ ap some (sym same)) in
      let (o', only', keeps', members') =
        run_groups_lem groups seen (put w.id nx switches) r here e₄ in
      (
        o',
        only',
        λ s h. keeps' s (keeps s h),
        λ m s c h. elim (Bool-cases (contains m g.member_host_ports)) [
          | inl y ↦ keeps' s (members m s y h)
          | inr n ↦ members' m s (ground arith) h
        ],
      )

  Only-length :
      (f : ℕ × NxCommand → Request) (o : Option ℕ) (switches : List (ℕ × NxCommand))
      → Only o switches
      → length (map f switches) ≤ 1
  Only-length f o switches (inl e) = subst (λ l. length (map f l) ≤ 1) (sym e) (omega arith)
  Only-length f o switches (inr (s, nx, e, h)) =
      subst (λ l. length (map f l) ≤ 1) (sym e) (omega arith)

  -- A run that ends sends at most one request, and two members of its bond groups that hang on a
  -- switch hang on the same one: a config over two switches panics.
  pub run_one_switch :
      (base64 : String → String) (nc : NetworkConfig) (a b r s : ℕ) {requests : List Request}
      → nx_run_network_task t base64 nc ≡ some requests
      → has_member a nc.bondgroups ≡ true
      → has_member b nc.bondgroups ≡ true
      → switch_of a ≡ some r
      → switch_of b ≡ some s
      → (length requests ≤ 1) × (r ≡ s)
  unfolding nx_run_network_task
  run_one_switch base64 nc a b r s {requests} e ca cb ha hb =
      let (switches, q, e₁) = >>=-eq-some (run_groups t nc.bondgroups none []) _ e in
      let (o, only, keeps, members) = run_groups_lem nc.bondgroups none [] switches (inl refl) q in
      let send : ℕ × NxCommand → Request = λ entry. execute base64 (coalesce nc.persist entry) in
      let same : map send switches ≡ requests = ground arith in
      let x = members a r ca ha in
      let y = members b s cb hb in
      (subst (λ l. length l ≤ 1) same (Only-length send o switches only), ground arith)
