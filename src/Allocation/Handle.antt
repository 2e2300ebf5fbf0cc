-- ===== src/Allocation/Handle.antt =====
-- src/models/src/allocation.rs: the operations of `ResourceHandle`.
pub mod Free
pub mod Found
pub mod Grants
pub mod Releases
pub mod ReleaseAll
pub mod Progress
pub mod Tests
use laas_reflab.Prelude.{
  ℕ, String, Bool, true, false, not, ◌&&◌, ◌||◌, Option, none, some, List, [], ◌∷◌, ◌++◌, ◌==◌,
  if◌then◌else◌, any, contains, insert, select, head?, take,
}
use laas_reflab.Dal.Transaction.{
  Res, ok, err, panicked, Session, M, ◌>>=◌, ◌>>◌, pure, fail, panics, ok_or, expect, attempt,
  Ending, commits, rolls_back, drops, transaction,
}
use laas_reflab.Allocation.Db.{
  ResourceHandleInner, ResourceHandle, AllocationReason, Allocation, VpnToken, Db, Env, new_id,
  utc_now, tables, tracked, is_null, option_eq, is_live, insert_allocation, update_allocation,
  get_handle, insert_handle, insert_token, find, all_for_aggregate, hosts_of_flavor, vlans_by_kind,
  vlans_by_id, tokens_of,
}

pub data ResourceRequestInner : Type 0 where
  vlan_by_characteristics : Bool → Bool → ResourceRequestInner
  specific_vlan host_by_flavor specific_host : ℕ → ResourceRequestInner
  host_by_characteristics : ResourceRequestInner
  vpn_access : String → String → ResourceRequestInner
  deallocate_host : ResourceHandle → ResourceRequestInner
  deallocate_all : ResourceRequestInner

-- The handles that `make_query` selects: with no live allocation, or with one.
abbrev pub handle_set : Bool → Db → List ResourceHandle
handle_set available db =
    select
      (λ h. let live = any (is_live h.id) db.allocations in if available then not live else live)
      db.resource_handles

-- The rows of the join for one resource, and for all of them.
abbrev pub rows_for : ℕ → List ResourceHandle → List (ℕ × ℕ)
rows_for resource [] = []
rows_for resource (h ∷ hs) =
    if tracked h.tracks == resource
    then (resource, h.id) ∷ rows_for resource hs
    else rows_for resource hs

abbrev pub make_query : Bool → List ℕ → Db → List (ℕ × ℕ)
make_query available [] db = []
make_query available (r ∷ rs) db =
    rows_for r (handle_set available db) ++ make_query available rs db

abbrev pub not_in : List ℕ → ℕ × ℕ → Bool
not_in except_for p = not (contains p.1 except_for)

abbrev pub limited : Option ℕ → List (ℕ × ℕ) → List (ℕ × ℕ)
limited none rows = rows
limited (some l) rows = take l rows

abbrev pub granted : ℕ → ℕ → Option ℕ → ℕ → AllocationReason → Allocation
granted id resource for_aggregate now reason = record {
  id = id;
  for_resource = resource;
  for_aggregate = for_aggregate;
  started = now;
  ended = none;
  reason_started = reason;
  reason_ended = none;
}

module _ (env : Env) where
  unfoldable pub query : Bool → (Db → List ℕ) → Option ℕ → List ℕ → M Db (List (ℕ × ℕ))
  query free resources limit except_for = do
    db ← tables
    pure (limited limit (select (not_in except_for) (env.rows (make_query free (resources db) db))))

  unfoldable pub query_free : (Db → List ℕ) → Option ℕ → List ℕ → M Db (List (ℕ × ℕ))
  query_free = query true

  unfoldable pub query_allocated : (Db → List ℕ) → Option ℕ → List ℕ → M Db (List (ℕ × ℕ))
  query_allocated = query false

  abbrev allowed : List Allocation → M Db (Unit {0})
  allowed [] = pure tt
  allowed (a ∷ []) = fail "already booked"
  allowed (a ∷ b ∷ rest) = panics

  unfoldable pub allocation_is_allowed : ℕ → M Db (Unit {0})
  allocation_is_allowed rh = find rh false >>= allowed

  unfoldable pub add_resource : ResourceHandleInner → M Db ℕ
  add_resource resource = do id ← new_id env; insert_handle (record { id = id; tracks = resource })

  -- The `match` of `find_one_available`, a function for each of its arms.
  unfoldable pub find_host_by_flavor : ℕ → List ℕ → M Db ResourceHandle
  find_host_by_flavor flavor except_for = do
    free_hosts ← query_free (hosts_of_flavor flavor) none except_for
    let handle_ids = env.shuffle (select (not_in except_for) free_hosts)
    selected ← ok_or "no matching host by the given constraints was found" (head? handle_ids)
    rh ← get_handle selected.1
    expect (allocation_is_allowed rh.id)
    pure rh

  unfoldable pub find_vlan : Bool → List ℕ → M Db ResourceHandle
  find_vlan public except_for = do
    set ← query_free (vlans_by_kind public) none except_for
    free_vlan ← ok_or "no matching vlan by the given constraints was found" (head? set)
    rh ← get_handle free_vlan.1
    expect (allocation_is_allowed rh.id)
    pure rh

  unfoldable pub find_specific_vlan : ℕ → List ℕ → M Db ResourceHandle
  find_specific_vlan vlan except_for = do
    db ← tables
    actual_vlan ← ok_or "no such vlan" (head? (vlans_by_id vlan db))
    vlans ← query_free (vlans_by_id vlan) none except_for
    found ← ok_or "that vlan was not free" (head? vlans)
    expect (allocation_is_allowed found.1)
    get_handle found.1

  -- `query_opt` fails on more than one row.
  abbrev pub query_opt : List ResourceHandle → M Db (Option ResourceHandle)
  query_opt [] = pure none
  query_opt (h ∷ []) = pure (some h)
  query_opt (h ∷ g ∷ rest) = fail "query returned an unexpected number of rows"

  unfoldable pub handle_tracking : ℕ → M Db (Option ResourceHandle)
  handle_tracking resource = do
    db ← tables
    query_opt (select (λ h. tracked h.tracks == resource) db.resource_handles)

  abbrev or_unavailable : ResourceHandle → Res (Unit {0}) → M Db ResourceHandle
  or_unavailable host (ok _) = pure host
  or_unavailable host (err e) = fail "host was not available"
  or_unavailable host panicked = panics

  unfoldable pub find_specific_host : ℕ → M Db ResourceHandle
  find_specific_host host = do
    db ← tables
    actual_host ← ok_or "no such host" (head? (select (λ h. h.id == host) db.hosts))
    row ← handle_tracking host
    rh ← ok_or "no matching rh for host found" row
    answer ← attempt (allocation_is_allowed rh.id)
    or_unavailable rh answer

  unfoldable pub make_vpn_access : String → String → M Db ResourceHandle
  make_vpn_access for_project for_user = do
    id ← new_id env
    vti ← insert_token (record { id = id; username = for_user; project = for_project })
    ri ← add_resource (ResourceHandleInner.vpn_access vti)
    get_handle ri

  unfoldable pub find_one_available : ResourceRequestInner → List ℕ → M Db ResourceHandle
  find_one_available host_by_characteristics except_for = panics
  find_one_available (host_by_flavor flavor) except_for = find_host_by_flavor flavor except_for
  find_one_available (vlan_by_characteristics public serves_dhcp) except_for =
      find_vlan public except_for
  find_one_available (specific_vlan vlan) except_for = find_specific_vlan vlan except_for
  find_one_available (specific_host host) except_for = find_specific_host host
  find_one_available (vpn_access for_project for_user) except_for =
      make_vpn_access for_project for_user
  find_one_available (deallocate_host resource) except_for = panics
  find_one_available deallocate_all except_for = panics

  -- The body of `allocate_one` after the search, and the whole of it.
  abbrev pub grant : Option ℕ → AllocationReason → ResourceHandle → M Db (Ending ResourceHandle)
  grant for_aggregate reason r = do
    id ← new_id env
    now ← utc_now env
    insert_allocation (granted id r.id for_aggregate now reason)
    pure (commits (ok r))

  abbrev pub find_and_grant :
      ResourceRequestInner → Option ℕ → AllocationReason → List ℕ → M Db (Ending ResourceHandle)
  find_and_grant filter for_aggregate reason except_for =
      find_one_available filter except_for >>= grant for_aggregate reason

  unfoldable pub allocate_one :
      ResourceRequestInner → Option ℕ → AllocationReason → List ℕ → M Db ResourceHandle
  allocate_one filter for_aggregate reason except_for =
      transaction (find_and_grant filter for_aggregate reason except_for)

  -- The body of `deallocate_one` after its checks, after the query, and the whole of it.
  abbrev pub write_end : ℕ → Allocation → M Db (Ending (Unit {0}))
  write_end resource a = do
    handle ← expect (get_handle resource)
    now ← utc_now env
    update_allocation (record a { ended = some now })
    pure (commits (ok tt))

  abbrev pub end_allocation : Option ℕ → ℕ → Option Allocation → M Db (Ending (Unit {0}))
  end_allocation from_aggregate resource none =
      pure (rolls_back (err "no live allocation existed for the resource"))
  end_allocation from_aggregate resource (some a) =
      if not (option_eq a.for_aggregate from_aggregate)
      then fail "The matching allocation is not from the given aggregate!"
      else write_end resource a

  abbrev pub end_first : Option ℕ → ℕ → M Db (Ending (Unit {0}))
  end_first from_aggregate resource = do
    live ← find resource false
    end_allocation from_aggregate resource (head? live)

  unfoldable pub deallocate_one : Option ℕ → ℕ → M Db (Unit {0})
  deallocate_one from_aggregate resource = transaction (end_first from_aggregate resource)

  unfoldable pub deallocate_each : ℕ → List Allocation → M Db (Unit {0})
  deallocate_each from_aggregate [] = pure tt
  deallocate_each from_aggregate (a ∷ rest) =
      if is_null a.ended
      then (do
        deallocate_one (some from_aggregate) a.for_resource
        deallocate_each from_aggregate rest)
      else deallocate_each from_aggregate rest

  abbrev pub end_all : ℕ → M Db (Ending (Unit {0}))
  end_all from_aggregate = do
    all ← all_for_aggregate from_aggregate
    deallocate_each from_aggregate all
    pure (commits (ok tt))

  unfoldable pub deallocate_all_for : ℕ → M Db (Unit {0})
  deallocate_all_for from_aggregate = transaction (end_all from_aggregate)

  abbrev pub owns : ℕ → List Allocation → Bool
  owns handle [] = false
  owns handle (a ∷ rest) =
      if (a.for_resource == handle) && is_null a.ended then true else owns handle rest

  unfoldable pub currently_owned_by : ResourceHandle → ℕ → M Db Bool
  currently_owned_by handle allocated_to = do
    all ← all_for_aggregate allocated_to
    pure (owns handle.id all)
