-- ===== src/Dal/Migrations/Initialize.antt =====
-- lib.rs, `initialize`: the whole loop, and what it leaves in the database.
use laas_reflab.Prelude.{
  ℕ, zero, suc, ◌⊎◌, ◌≤◌, ◌<◌, ◌≡◌, ◌≢◌, refl, sym, ap, subst, ◌∙◌, inl, inr, arith, String, Bool,
  true, false, Option, none, some, List, [], ◌∷◌, ◌++◌, length, contains, Bool-cases, if◌then◌else◌,
}
use mathlib.Core.List.{append_assoc}
use laas_reflab.Dal.Transaction.{
  Res, ok, err, panicked, Session, M, and_then, ◌>>=◌, >>=-eq-ok, pure, Ending, commits, rolls_back,
  close, transaction-eq-ok,
}
use laas_reflab.Dal.Migrations.{
  Migration, Schema, Accepts, round, while_progress, conclude, initialize,
}
use laas_reflab.Dal.Migrations.Firm.{while_progress-Firm}
use laas_reflab.Dal.Migrations.Rounds.{
  Among, Ordered, Ordered-mono, Ordered-append, settled, settled_mono, blocked, AllTrue, Turn,
  round_lem, contains-++,
}

-- What the loop leaves: the rows that it added, each after what its migration depends on, and the
-- migrations that it could not apply, none of which has all that it depends on.
pub record Left (ms : List Migration) (s : Session Schema) (left : List Migration)
    (s' : Session Schema) : Type 0 where
  pub new : List ℕ
  pub grows : s'.db.records ≡ s.db.records ++ new
  pub ordered : Ordered ms s.db.records new
  pub stuck : AllTrue (blocked s'.db.records) left
  pub covers : AllTrue (settled s'.db.records) left → AllTrue (settled s'.db.records) ms
  pub kept : (m : Migration) → Among m left → Among m ms
  pub each : (m : Migration) → Among m ms → Among m left ⊎ (settled s'.db.records m ≡ true)

Left-idle :
    (ms : List Migration) (s : Session Schema) (left : List Migration) (s' : Session Schema)
    → Turn ms s false left s'
    → Left ms s left s'
Left-idle ms s left s' t = record {
  new = t.new;
  grows = t.grows;
  ordered = t.ordered;
  stuck = subst (λ xs. AllTrue (blocked xs) left) (sym (t.idle refl).0) (t.idle refl).1;
  covers = t.covers s'.db.records (λ n c. c);
  kept = t.kept;
  each = t.each;
}

Left-Turn :
    (ms next left : List Migration) (p : Bool) (s s₁ s' : Session Schema)
    → Turn ms s p next s₁
    → Left next s₁ left s'
    → Left ms s left s'
Left-Turn ms next left p s s₁ s' t l = record {
  new = t.new ++ l.new;
  grows = l.grows ∙ ap (λ xs. xs ++ l.new) t.grows ∙ append_assoc s.db.records t.new l.new;
  ordered = Ordered-append ms s.db.records t.new l.new t.ordered (
      subst (λ b. Ordered ms b l.new) t.grows
        (Ordered-mono next ms t.kept s₁.db.records l.new l.ordered));
  stuck = l.stuck;
  covers = λ h.
      t.covers s'.db.records
        (λ n c.
          subst (λ xs. contains n xs ≡ true) (sym l.grows)
            (ground (arith, contains-++ n s₁.db.records l.new)))
        (l.covers h);
  kept = λ m a. t.kept m (l.kept m a);
  each = λ m a. elim (t.each m a) [
    | inl b ↦ l.each m b
    | inr d ↦ inr (
        settled_mono m s₁.db.records s'.db.records
          (λ n c.
            subst (λ xs. contains n xs ≡ true) (sym l.grows)
              (ground (arith, contains-++ n s₁.db.records l.new)))
          d)
  ];
}

module _ (accepts : Accepts) where
  -- Fuel above the number of migrations is enough: the loop ends by itself or panics.
  while_progress_lem :
      (fuel : ℕ) (ms : List Migration) (s : Session Schema) {o : Option (List Migration)}
      {s' : Session Schema}
      → length ms < fuel
      → while_progress accepts fuel ms s ≡ (ok o, s')
      → (left : List Migration) × (o ≡ some left) × Left ms s left s'
  unfolding while_progress
  while_progress_lem zero ms s h e = absurd (omega arith)
  while_progress_lem (suc fuel) ms s {o} {s'} h e =
      let (turn, s₁, r, e₁) =
        >>=-eq-ok (round accepts ms)
          (λ turn. if turn.0 then while_progress accepts fuel turn.1 else pure (some turn.1)) s e in
      let t = round_lem accepts ms s r in
      elim (Bool-cases turn.0) [
        | inl p ↦
            let short = t.shorter p in
            let (left, q, l) =
              while_progress_lem fuel turn.1 s₁ {o = o} {s' = s'} (omega arith) (ground arith) in
            (left, q, Left-Turn ms turn.1 left turn.0 s s₁ s' t l)
        | inr p ↦
            let same : s' ≡ s₁ = ground arith in
            (
              turn.1,
              ground arith,
              subst (Left ms s turn.1) (sym same)
                  (Left-idle ms s turn.1 s₁ (subst (λ b. Turn ms s b turn.1 s₁) p t)),
            )
      ]

  abbrev after_round : ℕ → Bool × List Migration → M Schema (Option (List Migration))
  after_round fuel turn = if turn.0 then while_progress accepts fuel turn.1 else pure (some turn.1)

  same_rounds :
      (fuel : ℕ) (ms : List Migration) (s : Session Schema)
      (r : Res (Bool × List Migration) × Session Schema)
      → round accepts ms s ≡ r
      → ((next : List Migration) (w : Session Schema)
          → suc (length next) ≤ length ms
          → while_progress accepts (suc fuel) next w ≡ while_progress accepts fuel next w)
      → and_then (after_round (suc fuel)) r ≡ and_then (after_round fuel) r
  same_rounds fuel ms s (ok (true, next), w) e again =
      again next w ((round_lem accepts ms s e).shorter refl)
  same_rounds fuel ms s (ok (false, next), w) e again = refl
  same_rounds fuel ms s (err x, w) e again = refl
  same_rounds fuel ms s (panicked, w) e again = refl

  more_fuel :
      (fuel : ℕ) (ms : List Migration) (s : Session Schema)
      → length ms < fuel
      → while_progress accepts (suc fuel) ms s ≡ while_progress accepts fuel ms s
  unfolding while_progress
  more_fuel zero ms s h = absurd (omega arith)
  more_fuel (suc fuel) ms s h =
      same_rounds fuel ms s (round accepts ms s) refl
        (λ next w short. more_fuel fuel next w (omega arith))

  -- More fuel than the number of migrations makes no difference to the loop, and it does not run out.
  pub while_progress_fuel :
      (fuel : ℕ) (ms : List Migration) (s : Session Schema)
      → length ms < fuel
      → (while_progress accepts (suc fuel) ms s ≡ while_progress accepts fuel ms s)
        × ((s' : Session Schema) → while_progress accepts fuel ms s ≢ (ok none, s'))
  while_progress_fuel fuel ms s h = (
    more_fuel fuel ms s h,
    λ s' e.
        let (left, q, l) = while_progress_lem fuel ms s {o = none} {s' = s'} h e in
        absurd (ground arith),
  )

  -- An `initialize` that succeeds has recorded every migration of a kind that is recorded, each after
  -- all the migrations that it depends on.
  pub initialize_applies :
      (ms : List Migration) (s : Session Schema) {s' : Session Schema}
      → initialize accepts ms s ≡ (ok tt, s')
      → AllTrue (settled s'.db.records) ms
        × ((new : List ℕ) × (s'.db.records ≡ s.db.records ++ new) × Ordered ms s.db.records new)
  unfolding initialize
  initialize_applies ms s {s'} e =
      let (how, u, b, c) =
        transaction-eq-ok (while_progress accepts (suc (length ms)) ms >>= conclude) s e in
      let (o, s₁, w, e₁) = >>=-eq-ok (while_progress accepts (suc (length ms)) ms) conclude s b in
      let (left, q, l) =
        while_progress_lem (suc (length ms)) ms s {o = o} {s' = s₁} (omega arith) w in
      go left how u (subst (λ o. conclude o s₁ ≡ (ok how, u)) q e₁) c l
    where
      go :
          (left : List Migration) (how : Ending (Unit {0})) (u : Session Schema)
          {s₁ : Session Schema}
          → conclude (some left) s₁ ≡ (ok how, u)
          → close s (ok how, u) ≡ (ok tt, s')
          → Left ms s left s₁
          → AllTrue (settled s'.db.records) ms
            × ((new : List ℕ) × (s'.db.records ≡ s.db.records ++ new) × Ordered ms s.db.records new)
      go [] how u {s₁} e c l =
          let ended : how ≡ commits (ok tt) = ground arith in
          let c' : close s (ok (commits (ok tt)), u) ≡ (ok tt, s') = cc in
          let same : s' ≡ s₁ = ground arith in
          (
            subst (λ w. AllTrue (settled w.db.records) ms) (sym same) (l.covers tt),
            (l.new, ap (λ w. w.db.records) same ∙ l.grows, l.ordered),
          )
      go (m ∷ rest) how u {s₁} e c l =
          let ended : how
              ≡ rolls_back (err "Could not apply migration, dependencies were unsatisfied") =
            ground arith in
          let c' : close s (
            ok (rolls_back (err "Could not apply migration, dependencies were unsatisfied")),
            u,
          )
              ≡ (ok tt, s') =
            cc in
          absurd (ground arith)

  -- The migrations that are left: none has all that it depends on, they are of those collected, and each
  -- of these that is not left is recorded, unless it is of a kind that never is.
  abbrev pub Remaining : List Migration → List ℕ → List Migration → Type 0
  Remaining ms records left =
      AllTrue (blocked records) left
      × ((m : Migration) → Among m left → Among m ms)
      × ((m : Migration) → Among m ms → Among m left ⊎ (settled records m ≡ true))

  -- What an `initialize` that returns an error has left in the database.
  abbrev pub Halted : List Migration → Session Schema → String → Session Schema → Type 0
  Halted ms s x s' =
      (x ≡ "Could not apply migration, dependencies were unsatisfied")
      × ((m : Migration) × (rest : List Migration) × Remaining ms s'.db.records (m ∷ rest))
      × ((new : List ℕ) × (s'.db.records ≡ s.db.records ++ new) × Ordered ms s.db.records new)

  stuck_after :
      (ms : List Migration) (s s₁ s' : Session Schema) (left : List Migration) (x : String)
      → Left ms s left s₁
      → close s (conclude (some left) s₁) ≡ (err x, s')
      → Halted ms s x s'
  stuck_after ms s s₁ s' [] x l c = absurd (ground arith)
  stuck_after ms s s₁ s' (m ∷ rest) x l c =
      let same : s' ≡ s₁ = ground arith in
      (
        ground arith,
        (
          m,
          rest,
          subst (λ w. Remaining ms w.db.records (m ∷ rest)) (sym same) (l.stuck, l.kept, l.each),
        ),
        (l.new, ap (λ w. w.db.records) same ∙ l.grows, l.ordered),
      )

  -- An `initialize` that returns an error says that some dependencies were unsatisfied: of the migrations
  -- collected there are some left, none of which has all that it depends on, and the others are
  -- recorded, unless they are of a kind that never is. The database keeps the records added before,
  -- each after all that its migration depends on.
  pub initialize_stuck :
      (ms : List Migration) (s : Session Schema) {x : String} {s' : Session Schema}
      → initialize accepts ms s ≡ (err x, s')
      → Halted ms s x s'
  unfolding initialize
  initialize_stuck ms s {x} {s'} e = go (while_progress accepts (suc (length ms)) ms s) refl e
    where
      go :
          (r : Res (Option (List Migration)) × Session Schema)
          → while_progress accepts (suc (length ms)) ms s ≡ r
          → close s (and_then conclude r) ≡ (err x, s')
          → Halted ms s x s'
      go (ok o, s₁) w c =
          let (left, q, l) =
            while_progress_lem (suc (length ms)) ms s {o = o} {s' = s₁} (omega arith) w in
          stuck_after ms s s₁ s' left x l (subst (λ o. close s (conclude o s₁) ≡ (err x, s')) q c)
      go (err y, s₁) w c =
          absurd (while_progress-Firm accepts (suc (length ms)) ms s y (ap (λ r. r.0) w))
      go (panicked, s₁) w c = absurd (ground arith)
