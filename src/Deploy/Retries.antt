-- ===== src/Deploy/Retries.antt =====
-- deploy_booking/mod.rs, `SingleHostDeploy::run`: which hosts it blames, and which it gives back.
pub mod Tests
use laas_reflab.Prelude.{
  ℕ, suc, ◌≡◌, refl, ◌⊎◌, inl, inr, arith, Bool, true, false, Option, none, some, List, [], ◌∷◌,
  ◌++◌, ◌||◌, contains, Bool-cases, ==_iff, ==-refl, ◌==◌, Option-cases,
}
use laas_reflab.Deploy.{
  Env, Ending, provisioned, no_host, too_many, Tried, worked, failed, tries, try_host, after_host,
  on_allocated, rounds, run,
}

abbrev pub handles : Ending → List ℕ
handles (provisioned hs) = hs
handles (no_host hs) = hs
handles (too_many hs) = hs

abbrev pub hosts_of : Tried → List ℕ
hosts_of (worked hs) = hs
hosts_of (failed hs) = hs

contains-append : (h a : ℕ) (xs : List ℕ) → contains h (xs ++ a ∷ []) ≡ (contains h xs || (a == h))
contains-append h a [] = ground arith
contains-append h a (x ∷ xs) = ground (arith, contains-append h a xs)

module _ (env : Env) where
  -- When the first host that `run` gets fails at the first attempt and is provisioned at the
  -- second, `run` succeeds and hands this very host to `mark_not_working`, and no other.
  run_blames :
      (rh : ℕ)
      → env.allocated 0 ≡ some rh
      → env.deployed 0 0 ≡ false
      → env.deployed 0 1 ≡ true
      → run env ≡ provisioned (rh ∷ [])
  unfolding run
  run_blames rh a f t = ground arith

  try_host_lem :
      (n rh h : ℕ) (is bad : List ℕ)
      → contains h (hosts_of (try_host env n rh is bad)) ≡ true
      → (contains h bad ≡ true) ⊎ (rh ≡ h)
  try_host_lem n rh h [] bad c = inl c
  try_host_lem n rh h (i ∷ is) bad c =
      ground (arith, try_host_lem n rh h is (bad ++ rh ∷ []), contains-append h rh bad, ==_iff rh h)

  -- The handle was in the list before, or one of the rounds got it.
  abbrev From : List ℕ → List ℕ → ℕ → Type 0
  From ns bad h =
      (contains h bad ≡ true) ⊎ ((n : ℕ) × (contains n ns ≡ true) × (env.allocated n ≡ some h))

  From-tried :
      (n rh h : ℕ) (ns bad : List ℕ) (t : Tried)
      → env.allocated n ≡ some rh
      → ((hs : List ℕ) → contains h (handles (rounds env ns hs)) ≡ true → From ns hs h)
      → (contains h (hosts_of t) ≡ true → (contains h bad ≡ true) ⊎ (rh ≡ h))
      → contains h (handles (after_host (rounds env ns) t)) ≡ true
      → From (n ∷ ns) bad h
  From-tried n rh h ns bad (worked hs) q later from c = elim (from c) [
    | inl b ↦ inl b
    | inr e ↦ inr (n, ground (arith, ==-refl n), ground arith)
  ]
  From-tried n rh h ns bad (failed hs) q later from c = elim (later hs c) [
    | inl b ↦ elim (from b) [
      | inl b' ↦ inl b'
      | inr e ↦ inr (n, ground (arith, ==-refl n), ground arith)
    ]
    | inr (m, k, a) ↦ inr (m, ground arith, a)
  ]

  From-on_allocated :
      (n h : ℕ) (ns bad : List ℕ) (o : Option ℕ)
      → env.allocated n ≡ o
      → ((hs : List ℕ) → contains h (handles (rounds env ns hs)) ≡ true → From ns hs h)
      → contains h (handles (on_allocated env n (rounds env ns) bad o)) ≡ true
      → From (n ∷ ns) bad h
  From-on_allocated n h ns bad none q later c = inl c
  From-on_allocated n h ns bad (some rh) q later c =
      From-tried n rh h ns bad (try_host env n rh tries bad) q later (try_host_lem n rh h tries bad)
        c

  From-rounds :
      (ns bad : List ℕ) (h : ℕ) → contains h (handles (rounds env ns bad)) ≡ true → From ns bad h
  From-rounds [] bad h c = inl c
  From-rounds (n ∷ ns) bad h c =
      From-on_allocated n h ns bad (env.allocated n) refl (λ hs q. From-rounds ns hs h q) c

  -- Every handle that `run` gives back or marks is one that an `AllocateHostTask` of its three gave it.
  run_handles :
      (h : ℕ)
      → contains h (handles (run env)) ≡ true
      → (n : ℕ) × (contains n tries ≡ true) × (env.allocated n ≡ some h)
  unfolding run
  run_handles h c = elim (From-rounds tries [] h c) [
    | inl b ↦ absurd (ground arith)
    | inr found ↦ found
  ]

  next_round :
      (n : ℕ) (next : List ℕ → Ending) (bad hs : List ℕ) (o : Option ℕ)
      → on_allocated env n next bad o ≡ too_many hs
      → (a : ℕ) × (o ≡ some a) × (next (((bad ++ a ∷ []) ++ a ∷ []) ++ a ∷ []) ≡ too_many hs)
  next_round n next bad hs none e = absurd (ground arith)
  next_round n next bad hs (some a) e = (a, refl, ground arith)

  -- When `run` gives up after its last host, each of its three rounds has got a host, and the list
  -- that it gives back has each of these hosts three times, in order.
  pub run_gives_back :
      (hs : List ℕ)
      → run env ≡ too_many hs
      → (a b c : ℕ) × (env.allocated 0 ≡ some a)
        × (env.allocated 1 ≡ some b)
        × (env.allocated 2 ≡ some c)
        × (hs ≡ a ∷ a ∷ a ∷ b ∷ b ∷ b ∷ c ∷ c ∷ c ∷ [])
  unfolding run
  run_gives_back hs e =
      let (a, p, e₁) = next_round 0 (rounds env (1 ∷ 2 ∷ [])) [] hs (env.allocated 0) e in
      let thrice : List ℕ = a ∷ a ∷ a ∷ [] in
      let (b, q, e₂) = next_round 1 (rounds env (2 ∷ [])) thrice hs (env.allocated 1) e₁ in
      let (c, r, e₃) = next_round 2 too_many (thrice ++ b ∷ b ∷ b ∷ []) hs (env.allocated 2) e₂ in
      (a, b, c, p, q, r, ground arith)
