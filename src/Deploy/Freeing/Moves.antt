-- ===== src/Deploy/Freeing/Moves.antt =====
-- deploy_booking/mod.rs: `mark_not_working` keeps the tables of allocations in order.
use laas_reflab.Prelude.{
  ℕ, some, if◌then◌else◌, List, [], ◌∷◌, Bool, true, false, any, contains, ◌==◌,
}
use laas_reflab.Dal.Transaction.{Res, ok, err, panicked, Session, M, fail, commits}
use laas_reflab.Dal.Transaction.Keeps.{
  Keeps, Keeps-bind, Keeps-pure, Keeps-panics, Keeps-ok_or, Keeps-expect, Keeps-attempt,
  Keeps-transaction, Keeps-fail,
}
use laas_reflab.Allocation.Db.{
  ResourceHandle, ResourceHandleInner, for_maintenance, Db, Env, new_id,
}
use laas_reflab.Allocation.Handle.Found.{Inv}
use laas_reflab.Allocation.Handle.ReleaseAll.{deallocate_one-Keeps}
use laas_reflab.Allocation.Allocator.{deallocate_host}
use laas_reflab.Allocation.Allocator.Keeping.{Call, call-Inv}
use laas_reflab.Deploy.Freeing.{
  whatever, insert_map, insert_aggregate, get_host, bad_hosts, hold_host, hold_freed, move_each,
  mark_not_working,
}

-- A statement that is refused in one case, and in the other changes neither allocations nor handles.
either-Keeps :
    {A : Type 0} (b : Bool) (m n : M Db A)
    → Keeps Inv m
    → Keeps Inv n
    → Keeps Inv (if b then m else n)
either-Keeps true m n k l = k
either-Keeps false m n k l = l

insert_map-Keeps : (id : ℕ) → Keeps Inv (insert_map id)
unfolding insert_map
insert_map-Keeps id = record {
  apply = λ s v.
      (either-Keeps (any (λ m. m.id == id) s.db.network_assignments) (fail "constraint violated") _
          (Keeps-fail Inv "constraint violated")
          (record { apply = λ u w. record { one_holder = v.one_holder; known = v.known } })).apply
        s v;
}

insert_aggregate-Keeps : (id : ℕ) → Keeps Inv (insert_aggregate id)
unfolding insert_aggregate
insert_aggregate-Keeps id = record {
  apply = λ s v.
      (either-Keeps (contains id s.db.aggregates) (fail "constraint violated") _
          (Keeps-fail Inv "constraint violated")
          (record { apply = λ u w. record { one_holder = v.one_holder; known = v.known } })).apply
        s v;
}

get_host-Keeps : (id : ℕ) → Keeps Inv (get_host id)
unfolding get_host
get_host-Keeps id = record { apply = λ s v. (Keeps-ok_or Inv "no such host" _).apply s v }

whatever-Keeps :
    (next : M Db (Unit {0})) {A : Type 0} (r : Res A) → Keeps Inv next → Keeps Inv (whatever next r)
whatever-Keeps next (ok v) k = k
whatever-Keeps next (err e) k = k
whatever-Keeps next panicked k = Keeps-panics Inv

module _ (env : Env) where
  new_id-Keeps : Keeps Inv (new_id env)
  new_id-Keeps = record { apply = λ s v. v }

  bad_hosts-Keeps : Keeps Inv (bad_hosts env)
  bad_hosts-Keeps = Keeps-bind Inv new_id-Keeps (λ agg. Keeps-bind Inv new_id-Keeps (λ map_id.
      Keeps-bind Inv (Keeps-expect Inv (insert_map-Keeps map_id)) (λ done.
        Keeps-bind Inv new_id-Keeps (λ template. Keeps-expect Inv (insert_aggregate-Keeps agg)))))

module _ (env : Env) (cooldown : List ℕ) where
  hold_host-Keeps :
      (agg : ℕ) (t : ResourceHandleInner) (next : M Db (Unit {0}))
      → Keeps Inv next
      → Keeps Inv (hold_host env cooldown agg t next)
  hold_host-Keeps agg (ResourceHandleInner.host h) next k =
      Keeps-bind Inv (Keeps-expect Inv (get_host-Keeps h)) (λ row.
        Keeps-bind Inv
          (Keeps-attempt Inv
            (record { apply = call-Inv env cooldown (Call.specific_host h agg for_maintenance) }))
          (λ r. whatever-Keeps next r k))
  hold_host-Keeps agg (ResourceHandleInner.private_vlan v) next k = k
  hold_host-Keeps agg (ResourceHandleInner.public_vlan v) next k = k
  hold_host-Keeps agg (ResourceHandleInner.vpn_access v) next k = k

  hold_freed-Keeps :
      (agg : ℕ) (h : ResourceHandle) (next : M Db (Unit {0})) (r : Res (Unit {0}))
      → Keeps Inv next
      → Keeps Inv (hold_freed env cooldown agg h next r)
  hold_freed-Keeps agg h next (ok v) k = hold_host-Keeps agg h.tracks next k
  hold_freed-Keeps agg h next (err e) k = k
  hold_freed-Keeps agg h next panicked k = Keeps-panics Inv

  move_each-Keeps :
      (original_agg agg : ℕ) (hosts : List ResourceHandle)
      → Keeps Inv (move_each env cooldown original_agg agg hosts)
  unfolding deallocate_host
  move_each-Keeps original_agg agg [] = Keeps-pure Inv tt
  move_each-Keeps original_agg agg (h ∷ hosts) =
      Keeps-bind Inv (Keeps-attempt Inv (deallocate_one-Keeps env (some original_agg) h.id))
        (λ r. hold_freed-Keeps agg h _ r (move_each-Keeps original_agg agg hosts))

  -- Whatever `mark_not_working` ends in, from tables in which no resource is held twice and none
  -- without a handle is held it leads to such tables.
  mark_not_working-Inv :
      (hosts : List ResourceHandle) (original_agg : ℕ) (s : Session Db)
      → Inv s.db
      → Inv (mark_not_working env cooldown hosts original_agg s).1.db
  unfolding mark_not_working
  mark_not_working-Inv [] original_agg s v = v
  mark_not_working-Inv (h ∷ hosts) original_agg s v =
      (Keeps-transaction Inv (
          Keeps-bind Inv (bad_hosts-Keeps env) (λ agg.
            Keeps-bind Inv (move_each-Keeps original_agg agg (h ∷ hosts))
              (λ done. Keeps-pure Inv (commits (ok tt)))))).apply
        s v
