-- ===== src/Allocation/Allocator/Vlans.antt =====
-- allocator.rs, `allocate_vlans_for`: the VLANs of all the networks of a booking, or a failure.
use laas_reflab.Prelude.{
  ℕ, ◌≡◌, refl, sym, ap, subst, ◌∙◌, inl, inr, ◌⊎◌, arith, Bool, Option, none, some, List, [], ◌∷◌,
  ◌++◌, append-cons, append-[], All, put,
}
use laas_reflab.Dal.Transaction.{
  Res, ok, err, panicked, Session, M, and_then, ◌>>=◌, >>=-eq-ok, ok_or-eq-ok, pure, attempt,
  caught, attempt-eq-ok, Ending, commits, rolls_back, transaction-eq-ok, close,
}
use laas_reflab.Allocation.Db.{
  ResourceHandle, AllocationReason, for_booking, Network, NetworkAssignmentMap, Db, Env,
  get_network, get_map, replace_map, update_map,
}
use laas_reflab.Allocation.Handle.{allocate_one, granted}
use laas_reflab.Allocation.Handle.Found.{Inv}
use laas_reflab.Allocation.Handle.Grants.{Granted, Granted-Inv, allocate_one_grants}
use laas_reflab.Allocation.Allocator.Given.{
  TracksVlan, vlan_of_lem, Assignment, networks_of, rows_of, put_all, Backed, Handed,
  allocate_vlan_internal-Handed,
}
use laas_reflab.Allocation.Allocator.{
  keep_vlan, vlan_request, allocate_vlan_internal, assign_one, assign_vlans, allocate_vlans_for,
}

module _ (env : Env) (cooldown : List ℕ) (agg : Option ℕ) (public : Bool) (id : Option ℕ)
    (reason : AllocationReason) (s : Session Db) where
  -- `allocate_vlan_internal`, where no resource is held twice: a success grants one free handle, which
  -- tracks the VLAN that it gives back.
  pub allocate_vlan_internal_grants :
      {v : ℕ} {h : ResourceHandle} {s' : Session Db}
      → Inv s.db
      → allocate_vlan_internal env cooldown agg public id reason s ≡ (ok (v, h), s')
      → Granted agg reason s h s' × TracksVlan h.tracks v
  unfolding allocate_vlan_internal
  allocate_vlan_internal_grants {v} {h} {s'} i e =
      go (allocate_one env (vlan_request id public) agg reason cooldown s) refl e
    where
      go :
          (b : Res ResourceHandle × Session Db)
          → allocate_one env (vlan_request id public) agg reason cooldown s ≡ b
          → and_then keep_vlan (caught b) ≡ (ok (v, h), s')
          → Granted agg reason s h s' × TracksVlan h.tracks v
      go (ok g, u) q k =
          let (same_h, same_s, tracks) = vlan_of_lem g g.tracks u k in
          let grant = allocate_one_grants env (vlan_request id public) agg reason cooldown s i q in
          (
            subst (λ p. Granted agg reason s p s') same_h
                (subst (λ w. Granted agg reason s g w) (sym same_s) grant),
            subst (λ p. TracksVlan p.tracks v) same_h tracks,
          )
      go (err x, u) q k = absurd (ground arith)
      go (panicked, u) q k = absurd (ground arith)

get_network_lem :
    (n : ℕ) (s : Session Db) {net : Network} {s' : Session Db}
    → get_network n s ≡ (ok net, s')
    → s' ≡ s
unfolding get_network
get_network_lem n s {net} {s'} e = let (found, same) = ok_or-eq-ok _ _ s e in same

get_map_lem :
    (n : ℕ) (s : Session Db) {map : NetworkAssignmentMap} {s' : Session Db}
    → get_map n s ≡ (ok map, s')
    → s' ≡ s
unfolding get_map
get_map_lem n s {map} {s'} e = let (found, same) = ok_or-eq-ok _ _ s e in same

update_map_lem :
    (m : NetworkAssignmentMap) (s : Session Db) {s' : Session Db}
    → (update_map m >>= λ _. pure (commits (ok tt))) s ≡ (ok (commits (ok tt)), s')
    → s' ≡ record s {
      db = record (s.db) { network_assignments = replace_map m s.db.network_assignments };
    }
unfolding update_map
update_map_lem m s e = ground arith

-- What a run of the loop adds: for each network a VLAN, put into the map, and a row that backs it.
pub record Assigned (agg : ℕ) (networks : List ℕ) (map : NetworkAssignmentMap) (s s' : Session Db)
    : Type 0 where
  pub done : List Assignment
  pub in_order : networks_of done ≡ networks
  pub added : s'.db.allocations ≡ s.db.allocations ++ rows_of done
  pub backed : All (Backed agg s.db.resource_handles) done
  pub final : NetworkAssignmentMap
  pub final_id : final.id ≡ map.id
  pub chosen : final.networks ≡ put_all done map.networks
  pub written : s'.db.network_assignments ≡ replace_map final s.db.network_assignments

Assigned-first :
    (agg network v : ℕ) (rest : List ℕ) (map : NetworkAssignmentMap) (h : ResourceHandle)
    (s s₁ s' : Session Db)
    → Granted (some agg) for_booking s h s₁
    → TracksVlan h.tracks v
    → Handed s h s₁
    → Assigned agg rest (record map { networks = put network v map.networks }) s₁ s'
    → Assigned agg (network ∷ rest) map s s'
Assigned-first agg network v rest map h s s₁ s' g tracks (here, same) a =
    let row = granted g.row_id h.id (some agg) g.row_started for_booking in
    record {
      done = record { network = network; vlan = v; row = row } ∷ a.done;
      in_order = ap (λ ns. network ∷ ns) a.in_order;
      added =
          a.added
          ∙ ap (λ xs. xs ++ rows_of a.done) g.one_row
          ∙ append-cons s.db.allocations row (rows_of a.done);
      backed = (
        (refl, refl, refl, (h, here, tracks)),
        subst (λ hs. All (Backed agg hs) a.done) same a.backed,
      );
      final = a.final;
      final_id = a.final_id;
      chosen = a.chosen;
      written = a.written ∙ ap (replace_map a.final) g.maps;
    }

module _ (env : Env) (cooldown : List ℕ) (agg : ℕ) where
  abbrev next_network : ℕ → List ℕ → NetworkAssignmentMap → Network → M Db (Ending (Unit {0}))
  next_network network rest map net =
      attempt (allocate_vlan_internal env cooldown (some agg) net.public none for_booking)
      >>= assign_one network map (assign_vlans env cooldown agg rest)

  assign_vlans_lem :
      (networks : List ℕ) (map : NetworkAssignmentMap) (s : Session Db) {s' : Session Db}
      → Inv s.db
      → assign_vlans env cooldown agg networks map s ≡ (ok (commits (ok tt)), s')
      → Assigned agg networks map s s'
  assign_vlans_lem [] map s {s'} i e =
      let wrote = update_map_lem map s e in
      record {
        done = [];
        in_order = refl;
        added = ap (λ w. w.db.allocations) wrote ∙ sym (append-[] s.db.allocations);
        backed = tt;
        final = map;
        final_id = refl;
        chosen = refl;
        written = ap (λ w. w.db.network_assignments) wrote;
      }
  assign_vlans_lem (n ∷ rest) map s {s'} i e =
      let (net, s₁, g, e₁) = >>=-eq-ok (get_network n) (next_network n rest map) s e in
      let same = get_network_lem n s g in
      let (res, s₂, r, e₂) =
        >>=-eq-ok
          (attempt (allocate_vlan_internal env cooldown (some agg) net.public none for_booking))
          (assign_one n map (assign_vlans env cooldown agg rest)) s₁ e₁ in
      go (λ m w k q. assign_vlans_lem rest m w k q) net.public res s₂
        (subst
          (λ w.
            attempt (allocate_vlan_internal env cooldown (some agg) net.public none for_booking) w
            ≡ (ok res, s₂))
          same r)
        e₂
    where
      go :
          ((m : NetworkAssignmentMap) (w : Session Db)
            → Inv w.db
            → assign_vlans env cooldown agg rest m w ≡ (ok (commits (ok tt)), s')
            → Assigned agg rest m w s')
          → (public : Bool) (res : Res (ℕ × ResourceHandle)) (s₂ : Session Db)
          → attempt (allocate_vlan_internal env cooldown (some agg) public none for_booking) s
            ≡ (ok res, s₂)
          → assign_one n map (assign_vlans env cooldown agg rest) res s₂
            ≡ (ok (commits (ok tt)), s')
          → Assigned agg (n ∷ rest) map s s'
      go again public (ok (v, h)) s₂ r q =
          let got =
            attempt-eq-ok (allocate_vlan_internal env cooldown (some agg) public none for_booking) s
              r in
          let (grant, tracks) =
            allocate_vlan_internal_grants env cooldown (some agg) public none for_booking s i got in
          let handed =
            allocate_vlan_internal-Handed env cooldown (some agg) public for_booking s got in
          Assigned-first agg n v rest map h s s₂ s' grant tracks handed (
            again (record map { networks = put n v map.networks }) s₂
              (Granted-Inv (some agg) for_booking s h s₂ grant i) q)
      go again public (err x) s₂ r q = absurd (ground arith)
      go again public panicked s₂ r q = absurd (ground arith)

  assign_vlans_ends :
      (networks : List ℕ) (map : NetworkAssignmentMap) (s : Session Db) {how : Ending (Unit {0})}
      {u : Session Db}
      → assign_vlans env cooldown agg networks map s ≡ (ok how, u)
      → (how ≡ commits (ok tt)) ⊎ (how ≡ rolls_back (err "Failed to allocate all vlans"))
  assign_vlans_ends [] map s e =
      let (done, s₁, w, e₁) = >>=-eq-ok (update_map map) (λ _. pure (commits (ok tt))) s e in
      inl (ground arith)
  assign_vlans_ends (n ∷ rest) map s {how} {u} e =
      let (net, s₁, g, e₁) = >>=-eq-ok (get_network n) (next_network n rest map) s e in
      let (res, s₂, r, e₂) =
        >>=-eq-ok
          (attempt (allocate_vlan_internal env cooldown (some agg) net.public none for_booking))
          (assign_one n map (assign_vlans env cooldown agg rest)) s₁ e₁ in
      go (λ m w q. assign_vlans_ends rest m w q) res s₂ e₂
    where
      go :
          ((m : NetworkAssignmentMap) (w : Session Db)
            → assign_vlans env cooldown agg rest m w ≡ (ok how, u)
            → (how ≡ commits (ok tt)) ⊎ (how ≡ rolls_back (err "Failed to allocate all vlans")))
          → (res : Res (ℕ × ResourceHandle)) (s₂ : Session Db)
          → assign_one n map (assign_vlans env cooldown agg rest) res s₂ ≡ (ok how, u)
          → (how ≡ commits (ok tt)) ⊎ (how ≡ rolls_back (err "Failed to allocate all vlans"))
      go again (ok (v, h)) s₂ q = again (record map { networks = put n v map.networks }) s₂ q
      go again (err x) s₂ q = inr (ground arith)
      go again panicked s₂ q = absurd (ground arith)

  -- Where no resource is held twice and none without a handle is held, an `allocate_vlans_for` that
  -- succeeds has chosen a VLAN for each of the networks, in their order. It adds one row for each and no other, a live allocation of the
  -- aggregate, for a booking, of the resource whose handle in the table tracks that VLAN. It writes
  -- back the map with each of these networks put to its VLAN, and with what it had for the others.
  pub allocate_vlans_for_assigns :
      (networks : List ℕ) (within : ℕ) (s : Session Db) {s' : Session Db}
      → Inv s.db
      → allocate_vlans_for env cooldown agg networks within s ≡ (ok tt, s')
      → (map : NetworkAssignmentMap) × (get_map within s ≡ (ok map, s))
        × Assigned agg networks map s s'
  unfolding allocate_vlans_for
  allocate_vlans_for_assigns networks within s {s'} i e =
      let (how, u, b, c) =
        transaction-eq-ok (get_map within >>= assign_vlans env cooldown agg networks) s e in
      let (map, s₁, g, e₁) =
        >>=-eq-ok (get_map within) (assign_vlans env cooldown agg networks) s b in
      let same = get_map_lem within s g in
      let e₂ : assign_vlans env cooldown agg networks map s ≡ (ok how, u) =
        subst (λ w. assign_vlans env cooldown agg networks map w ≡ (ok how, u)) same e₁ in
      (
        map,
        subst (λ w. get_map within s ≡ (ok map, w)) same g,
        (elim (assign_vlans_ends networks map s e₂) [
          | inl p ↦
              let e₃ : assign_vlans env cooldown agg networks map s ≡ (ok (commits (ok tt)), u) =
                ground arith in
              let c' : close s (ok (commits (ok tt)), u) ≡ (ok tt, s') = cc in
              let last : s' ≡ u = ground arith in
              subst (Assigned agg networks map s) (sym last) (assign_vlans_lem networks map s i e₃)
          | inr p ↦
              let c' : close s (ok (rolls_back (err "Failed to allocate all vlans")), u)
                  ≡ (ok tt, s') =
                cc in
              absurd (ground arith)
        ]),
      )
