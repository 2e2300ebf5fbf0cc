-- ===== src/Allocation/Handle/ReleaseAll.antt =====
-- allocation.rs, `deallocate_all`: the end of every allocation of an aggregate.
use laas_reflab.Prelude.{
  ℕ, suc, ◌≤◌, ◌≡◌, refl, sym, ap, subst, inl, inr, arith, Bool, true, false, ◌&&◌, Option, some,
  List, [], ◌∷◌, ==_iff, if◌then◌else◌, any, select, Bool-cases, ◌⊎◌,
}
use laas_reflab.Dal.Transaction.{
  ok, Session, ◌>>=◌, >>=-eq-ok, pure, commits, transaction-eq-ok, close,
}
use laas_reflab.Dal.Transaction.Keeps.{Keeps, Keeps-bind, Keeps-pure, Keeps-transaction}
use laas_reflab.Allocation.Db.{
  Allocation, Db, Env, is_live, is_null, option_eq, replace_row, all_for_aggregate,
}
use laas_reflab.Allocation.Handle.{deallocate_one, deallocate_each, end_all, deallocate_all_for}
use laas_reflab.Allocation.Handle.Free.{live_count}
use laas_reflab.Allocation.Handle.Found.{Inv}
use laas_reflab.Allocation.Handle.Releases.{
  ended_row, Released-live_count, Released-free, Released-Inv, deallocate_one_releases,
  deallocate_one-Inv,
}

-- How many live allocations of the resource the aggregate holds.
abbrev pub held_count : ℕ → ℕ → List Allocation → ℕ
held_count agg r [] = 0
held_count agg r (a ∷ rest) =
    let more = held_count agg r rest in
    if is_live r a && option_eq a.for_aggregate (some agg) then suc more else more

abbrev of_aggregate : ℕ → List Allocation → List Allocation
of_aggregate agg xs = select (λ a. option_eq a.for_aggregate (some agg)) xs

held_count-live_count : (agg r : ℕ) (xs : List Allocation) → held_count agg r xs ≤ live_count r xs
held_count-live_count agg r [] = omega arith
held_count-live_count agg r (x ∷ xs) = ground (arith, held_count-live_count agg r xs)

-- An aggregate that holds a resource has a live row of it among its own.
held_count-any :
    (agg r : ℕ) (xs : List Allocation)
    → (held_count agg r xs ≡ 0) ⊎ (any (is_live r) (of_aggregate agg xs) ≡ true)
held_count-any agg r [] = inl refl
held_count-any agg r (x ∷ xs) = ground (arith, held_count-any agg r xs)

held_count-replace_row :
    (agg r t : ℕ) (a : Allocation) (xs : List Allocation)
    → held_count agg r (replace_row (ended_row a t) xs) ≤ held_count agg r xs
held_count-replace_row agg r t a [] = omega arith
held_count-replace_row agg r t a (x ∷ xs) = ground (arith, held_count-replace_row agg r t a xs)

module _ (env : Env) (agg : ℕ) where
  record Cleared (l : List Allocation) (s s' : Session Db) : Type 0 where
    less : (r : ℕ) → live_count r s'.db.allocations ≤ live_count r s.db.allocations
    held : (r : ℕ) → held_count agg r s'.db.allocations ≤ held_count agg r s.db.allocations
    gone : (r : ℕ) → any (is_live r) l ≡ true → live_count r s'.db.allocations ≡ 0
    still : Inv s'.db

  deallocate_each-Cleared :
      (l : List Allocation) (s : Session Db) {s' : Session Db}
      → Inv s.db
      → deallocate_each env agg l s ≡ (ok tt, s')
      → Cleared l s s'
  unfolding deallocate_each
  deallocate_each-Cleared [] s v e = record {
    less = λ r. ground arith;
    held = λ r. ground arith;
    gone = λ r q. absurd (ground arith);
    still = subst Inv (ground arith) v;
  }
  deallocate_each-Cleared (a ∷ l) s {s'} v e = elim (Bool-cases (is_null a.ended)) [
    | inl live ↦
        let e' : (deallocate_one env (some agg) a.for_resource >>= λ _. deallocate_each env agg l) s
            ≡ (ok tt, s') =
          ground arith in
        let (u, s₁, d, e₁) =
          >>=-eq-ok (deallocate_one env (some agg) a.for_resource) (λ _. deallocate_each env agg l)
            s e' in
        let rel = deallocate_one_releases env (some agg) a.for_resource s d in
        let free = Released-free env (some agg) a.for_resource s s₁ rel v in
        let rest =
          deallocate_each-Cleared l s₁ (Released-Inv env (some agg) a.for_resource s s₁ rel v) e₁ in
        record {
          less = λ r.
              let x = rest.less r in
              let y = Released-live_count env (some agg) a.for_resource s s₁ rel r in omega arith;
          held = λ r.
              let x = rest.held r in
              let y =
                subst (λ ys. held_count agg r ys ≤ held_count agg r s.db.allocations) (sym rel.rows)
                  (held_count-replace_row agg r (env.clock s.draws) rel.row s.db.allocations) in
              omega arith;
          gone = λ r q.
              let x = rest.less r in
              let y = rest.gone r in
              let same = ==_iff a.for_resource r in
              ground (arith, ap (λ k. live_count k s₁.db.allocations) {x = a.for_resource} {y = r});
          still = rest.still;
        }
    | inr over ↦
        let rest = deallocate_each-Cleared l s {s' = s'} v (ground arith) in
        record {
          less = rest.less;
          held = rest.held;
          gone = λ r q. rest.gone r (ground arith);
          still = rest.still;
        }
  ]

  -- Where no resource is held twice, a `deallocate_all` that succeeds leaves the aggregate with no
  -- live allocation of any resource; no resource gains one, and none is held twice.
  pub deallocate_all_releases :
      (s : Session Db) {s' : Session Db}
      → Inv s.db
      → deallocate_all_for env agg s ≡ (ok tt, s')
      → ((r : ℕ) → held_count agg r s'.db.allocations ≡ 0)
        × ((r : ℕ) → live_count r s'.db.allocations ≤ live_count r s.db.allocations)
        × Inv s'.db
  unfolding deallocate_all_for all_for_aggregate
  deallocate_all_releases s {s'} v e =
      let (how, u, b, c) = transaction-eq-ok (end_all env agg) s e in
      let l = of_aggregate agg s.db.allocations in
      let (done, s₁, d, e₁) =
        >>=-eq-ok (deallocate_each env agg l) (λ _. pure (commits (ok tt))) s b in
      let ended : how ≡ commits (ok tt) = ground arith in
      let c' : close s (ok (commits (ok tt)), u) ≡ (ok tt, s') = cc in
      let same : s' ≡ s₁ = ground arith in
      let cleared : Cleared l s s' =
        subst (Cleared l s) (sym same) (deallocate_each-Cleared l s v d) in
      (
        λ r.
            let gone = cleared.gone r in
            let less = cleared.less r in
            let fewer = cleared.held r in
            let any_held = held_count-any agg r s.db.allocations in
            let held = held_count-live_count agg r s'.db.allocations in ground arith,
        cleared.less,
        cleared.still,
      )

module _ (env : Env) where
  pub deallocate_one-Keeps : (agg : Option ℕ) (r : ℕ) → Keeps Inv (deallocate_one env agg r)
  deallocate_one-Keeps agg r = record { apply = λ s v. deallocate_one-Inv env agg r s v }

  deallocate_each-Keeps : (agg : ℕ) (l : List Allocation) → Keeps Inv (deallocate_each env agg l)
  unfolding deallocate_each
  deallocate_each-Keeps agg [] = Keeps-pure Inv tt
  deallocate_each-Keeps agg (a ∷ l) = go (is_null a.ended) (deallocate_each-Keeps agg l)
    where
      go :
          (b : Bool)
          → Keeps Inv (deallocate_each env agg l)
          → Keeps Inv (
              if b
              then (deallocate_one env (some agg) a.for_resource >>= λ _. deallocate_each env agg l)
              else deallocate_each env agg l)
      go true k = Keeps-bind Inv (deallocate_one-Keeps (some agg) a.for_resource) (λ _. k)
      go false k = k

  all_for_aggregate-Keeps : (agg : ℕ) → Keeps Inv (all_for_aggregate agg)
  unfolding all_for_aggregate
  all_for_aggregate-Keeps agg = record { apply = λ s v. v }

  pub deallocate_all_for-Keeps : (agg : ℕ) → Keeps Inv (deallocate_all_for env agg)
  unfolding deallocate_all_for
  deallocate_all_for-Keeps agg = Keeps-transaction Inv {m = end_all env agg} (
      Keeps-bind Inv (all_for_aggregate-Keeps agg)
        (λ l. Keeps-bind Inv (deallocate_each-Keeps agg l) (λ _. Keeps-pure Inv (commits (ok tt)))))
