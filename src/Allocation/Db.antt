-- ===== src/Allocation/Db.antt =====
-- The tables of src/models/src/allocation.rs and of the rows that it joins, with the statements that
-- the file runs on them. A table is the list of its rows; a statement does what its SQL says, with
-- the constraints of the migrations: the primary keys, the foreign keys of `allocations`, and
-- `UNIQUE (for_resource, ended)`, in which SQL compares no two NULLs as equal. The connection does
-- not fail. Columns that no statement here tests are left out.
use text.Mathlib.Text.{◌==◌ as str_eq}
use laas_reflab.Prelude.{
  ℕ, ◌+◌, String, Bool, true, false, not, ◌&&◌, Option, none, some, List, [], ◌∷◌, ◌++◌, map, ◌==◌,
  if◌then◌else◌, any, contains, select, is_some, head?,
}
use laas_reflab.Dal.Transaction.{M, ◌>>=◌, ◌>>◌, pure, fail, ok_or}

pub data ResourceHandleInner : Type 0 where
  host private_vlan public_vlan vpn_access : ℕ → ResourceHandleInner

pub record ResourceHandle : Type 0 where
  pub id : ℕ
  pub tracks : ResourceHandleInner

pub data AllocationReason : Type 0 where
  for_booking for_maintenance for_retiry : AllocationReason

pub record Allocation : Type 0 where
  pub id : ℕ
  pub for_resource : ℕ
  pub for_aggregate : Option ℕ
  pub started : ℕ
  pub ended : Option ℕ
  pub reason_started : AllocationReason
  pub reason_ended : Option String

pub record VpnToken : Type 0 where
  pub id : ℕ
  pub username : String
  pub project : String

pub record Host : Type 0 where
  pub id : ℕ
  pub flavor : ℕ

pub record Vlan : Type 0 where
  pub id : ℕ
  pub public_config : Option String

pub record Network : Type 0 where
  pub id : ℕ
  pub public : Bool

-- `networks` maps each network to its VLAN.
pub record NetworkAssignmentMap : Type 0 where
  pub id : ℕ
  pub networks : List (ℕ × ℕ)

pub record Db : Type 0 where
  pub hosts : List Host
  pub vlans : List Vlan
  pub vpn_tokens : List VpnToken
  pub resource_handles : List ResourceHandle
  pub allocations : List Allocation
  pub aggregates : List ℕ
  pub networks : List Network
  pub network_assignments : List NetworkAssignmentMap

-- What the code takes from outside: the n-th id or time drawn, the order in which the rows of a
-- query come, and a shuffle.
pub record Env : Type 0 where
  pub uuid : ℕ → ℕ
  pub clock : ℕ → ℕ
  pub rows : List (ℕ × ℕ) → List (ℕ × ℕ)
  pub shuffle : List (ℕ × ℕ) → List (ℕ × ℕ)

abbrev pub new_id : Env → M Db ℕ
new_id env s = pure (env.uuid s.draws) (record s { draws = s.draws + 1 })

abbrev pub utc_now : Env → M Db ℕ
utc_now env s = pure (env.clock s.draws) (record s { draws = s.draws + 1 })

abbrev pub tables : M Db Db
tables s = pure s.db s

abbrev pub write : Db → M Db (Unit {0})
write db s = pure tt (record s { db = db })

-- `tracks_resource`, the id in any case of the enum.
abbrev pub tracked : ResourceHandleInner → ℕ
tracked (ResourceHandleInner.host id) = id
tracked (ResourceHandleInner.private_vlan id) = id
tracked (ResourceHandleInner.public_vlan id) = id
tracked (ResourceHandleInner.vpn_access id) = id

abbrev pub is_null : Option ℕ → Bool
is_null o = not (is_some o)

-- Equality of two columns that may be NULL, as Rust's `==` has it.
abbrev pub option_eq : Option ℕ → Option ℕ → Bool
option_eq none none = true
option_eq (some a) (some b) = a == b
option_eq none (some b) = false
option_eq (some a) none = false

-- An allocation of the resource `r` that has not ended.
abbrev pub is_live : ℕ → Allocation → Bool
is_live r a = a.for_resource == r && is_null a.ended

-- `ended = $2` in SQL: never for a NULL.
abbrev pub ended_at : Option ℕ → Allocation → Bool
ended_at none a = false
ended_at (some t) a = option_eq a.ended (some t)

abbrev pub known_aggregate : Db → Option ℕ → Bool
known_aggregate db none = true
known_aggregate db (some agg) = contains agg db.aggregates

-- The constraints on a row of `allocations` beside its own primary key.
abbrev pub row_allowed : Db → List Allocation → Allocation → Bool
row_allowed db others a =
    any (λ h. h.id == a.for_resource) db.resource_handles
    && known_aggregate db a.for_aggregate
    && not (any (λ b. (b.for_resource == a.for_resource) && ended_at a.ended b) others)

-- `NewRow::insert` of an allocation.
unfoldable pub insert_allocation : Allocation → M Db (Unit {0})
insert_allocation a = do
  db ← tables
  if not (any (λ b. b.id == a.id) db.allocations) && row_allowed db db.allocations a
      then write (record db { allocations = db.allocations ++ a ∷ [] })
      else fail "constraint violated"

-- The rows of an `UPDATE … WHERE id = …` that sets every column.
abbrev pub replace_row : Allocation → List Allocation → List Allocation
replace_row a [] = []
replace_row a (b ∷ bs) = let rest = replace_row a bs in if b.id == a.id then a ∷ rest else b ∷ rest

-- `ExistingRow::update` of an allocation.
unfoldable pub update_allocation : Allocation → M Db (Unit {0})
update_allocation a = do
  db ← tables
  if row_allowed db (select (λ b. not (b.id == a.id)) db.allocations) a
      then write (record db { allocations = replace_row a db.allocations })
      else fail "constraint violated"

-- `FKey::get` of a handle.
unfoldable pub get_handle : ℕ → M Db ResourceHandle
get_handle id = do
  db ← tables
  ok_or "no such handle" (head? (select (λ h. h.id == id) db.resource_handles))

-- `NewRow::insert` of a handle: its id and the resource that it tracks are both unique.
unfoldable pub insert_handle : ResourceHandle → M Db ℕ
insert_handle h = do
  db ← tables
  if any (λ g. g.id == h.id) db.resource_handles
      then fail "constraint violated"
      else (if any (λ g. tracked g.tracks == tracked h.tracks) db.resource_handles
          then fail "constraint violated"
          else (do
            write (record db { resource_handles = db.resource_handles ++ h ∷ [] })
            pure h.id))

-- `NewRow::insert` of a token.
unfoldable pub insert_token : VpnToken → M Db ℕ
insert_token t = do
  db ← tables
  if any (λ u. u.id == t.id) db.vpn_tokens
      then fail "constraint violated"
      else (do write (record db { vpn_tokens = db.vpn_tokens ++ t ∷ [] }); pure t.id)

-- `Allocation::find`. Its rows come in the order of the list here; the SQL gives no order. Where no resource
-- is held twice, one row at most is live.
unfoldable pub find : ℕ → Bool → M Db (List Allocation)
find for_resource completed = do
  db ← tables
  pure (
      select
        (λ a.
          (a.for_resource == for_resource)
          && (if completed then is_some a.ended else is_null a.ended))
        db.allocations)

-- `Allocation::all_for_aggregate`.
unfoldable pub all_for_aggregate : ℕ → M Db (List Allocation)
all_for_aggregate agg = do
  db ← tables
  pure (select (λ a. option_eq a.for_aggregate (some agg)) db.allocations)

-- The rows of `{tn} WHERE {additional_filter}` that `make_query` selects from, as their ids.
abbrev pub hosts_of_flavor : ℕ → Db → List ℕ
hosts_of_flavor flavor db = map (λ h. h.id) (select (λ h. h.flavor == flavor) db.hosts)

abbrev pub vlans_by_kind : Bool → Db → List ℕ
vlans_by_kind public db =
    map (λ v. v.id)
      (select (λ v. if public then is_some v.public_config else not (is_some v.public_config))
        db.vlans)

abbrev pub vlans_by_id : ℕ → Db → List ℕ
vlans_by_id id db = map (λ v. v.id) (select (λ v. v.id == id) db.vlans)

abbrev pub tokens_of : String → Db → List ℕ
tokens_of user db = map (λ t. t.id) (select (λ t. str_eq t.username user) db.vpn_tokens)

-- `FKey::get` of a network and of an assignment map, and `ExistingRow::update` of the latter.
unfoldable pub get_network : ℕ → M Db Network
get_network id = do
  db ← tables
  ok_or "no such network" (head? (select (λ n. n.id == id) db.networks))

unfoldable pub get_map : ℕ → M Db NetworkAssignmentMap
get_map id = do
  db ← tables
  ok_or "no such assignment map" (head? (select (λ m. m.id == id) db.network_assignments))

abbrev pub replace_map :
    NetworkAssignmentMap → List NetworkAssignmentMap → List NetworkAssignmentMap
replace_map a [] = []
replace_map a (b ∷ bs) = let rest = replace_map a bs in if b.id == a.id then a ∷ rest else b ∷ rest

unfoldable pub update_map : NetworkAssignmentMap → M Db (Unit {0})
update_map m = do
  db ← tables
  write (record db { network_assignments = replace_map m db.network_assignments })
