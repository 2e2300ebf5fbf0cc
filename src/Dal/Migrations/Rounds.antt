-- ===== src/Dal/Migrations/Rounds.antt =====
-- lib.rs, `initialize`: a turn of its loop, and the loop.
use laas_reflab.Prelude.{
  ℕ, suc, ◌≤◌, ◌≡◌, refl, sym, ap, subst, ◌∙◌, ◌⊎◌, inl, inr, arith, Bool, true, false, not, ◌||◌,
  List, [], ◌∷◌, ◌++◌, ==_iff, if◌then◌else◌, length, contains, append-[], append-cons, All,
  Bool-cases,
}
use mathlib.Core.List.{append_assoc}
use laas_reflab.Dal.Transaction.{ok, Session, ◌>>=◌, >>=-eq-ok, pure}
use laas_reflab.Dal.Migrations.{Migration, Schema, Accepts, can_apply, apply, try_one, round}
use laas_reflab.Dal.Migrations.Order.{all_in, is_recorded, added, can_apply_lem, apply_lem}

abbrev pub Among : Migration → List Migration → Type 0
Among m [] = ⊥
Among m (x ∷ xs) = (m ≡ x) ⊎ Among m xs

-- A name that a migration of the list may record, where `base` is recorded already.
pub record Grounded (ms : List Migration) (base : List ℕ) (name : ℕ) : Type 0 where
  pub migration : Migration
  pub among : Among migration ms
  pub named : migration.unique_name ≡ name
  pub deps : all_in migration.depends_on base ≡ true

-- Names recorded one after the other, each after all that its migration depends on.
abbrev pub Ordered : List Migration → List ℕ → List ℕ → Type 0
Ordered ms base [] = Unit {0}
Ordered ms base (name ∷ names) = Grounded ms base name × Ordered ms (base ++ name ∷ []) names

-- A migration is recorded, unless it is of a kind that never is.
abbrev pub settled : List ℕ → Migration → Bool
settled records m = not (is_recorded m.apply) || contains m.unique_name records

abbrev pub blocked : List ℕ → Migration → Bool
blocked records m = not (all_in m.depends_on records)

abbrev pub AllTrue : (Migration → Bool) → List Migration → Type 0
AllTrue p ms = All (λ m. p m ≡ true) ms

pub contains-++ :
    (n : ℕ) (xs ys : List ℕ) → contains n (xs ++ ys) ≡ (contains n xs || contains n ys)
contains-++ n [] ys = refl
contains-++ n (x ∷ xs) ys = ground (arith, contains-++ n xs ys)

pub Ordered-mono :
    (ms ns : List Migration)
    → ((m : Migration) → Among m ms → Among m ns)
    → (base names : List ℕ) → Ordered ms base names
    → Ordered ns base names
Ordered-mono ms ns sub base [] o = tt
Ordered-mono ms ns sub base (name ∷ names) (g, o) = (
  record {
    migration = g.migration;
    among = sub g.migration g.among;
    named = g.named;
    deps = g.deps;
  },
  Ordered-mono ms ns sub (base ++ name ∷ []) names o,
)

pub Ordered-append :
    (ms : List Migration) (base xs ys : List ℕ)
    → Ordered ms base xs
    → Ordered ms (base ++ xs) ys
    → Ordered ms base (xs ++ ys)
Ordered-append ms base [] ys o p = subst (λ b. Ordered ms b ys) (append-[] base) p
Ordered-append ms base (x ∷ xs) ys (g, o) p = (
  g,
  Ordered-append ms (base ++ x ∷ []) xs ys o
      (subst (λ b. Ordered ms b ys) (sym (append-cons base x xs)) p),
)

-- What a turn does: the rows that it adds, and what it throws back.
pub record Turn (ms : List Migration) (s : Session Schema) (progress : Bool) (left : List Migration)
    (s' : Session Schema) : Type 0 where
  pub new : List ℕ
  pub grows : s'.db.records ≡ s.db.records ++ new
  pub ordered : Ordered ms s.db.records new
  pub kept : (m : Migration) → Among m left → Among m ms
  pub no_longer : length left ≤ length ms
  pub shorter : progress ≡ true → suc (length left) ≤ length ms
  pub covers :
      (records : List ℕ)
      → ((n : ℕ) → contains n s'.db.records ≡ true → contains n records ≡ true)
      → AllTrue (settled records) left
      → AllTrue (settled records) ms
  pub each : (m : Migration) → Among m ms → Among m left ⊎ (settled s'.db.records m ≡ true)
  pub idle : progress ≡ false → (s'.db.records ≡ s.db.records) × AllTrue (blocked s.db.records) left

Turn-none : (s : Session Schema) → Turn [] s false [] s
Turn-none s = record {
  new = [];
  grows = sym (append-[] s.db.records);
  ordered = tt;
  kept = λ m a. a;
  no_longer = omega arith;
  shorter = λ q. absurd (ground arith);
  covers = λ rs sub h. h;
  each = λ m a. absurd a;
  idle = λ q. (refl, tt);
}

Ordered-added :
    (m : Migration) (ms : List Migration) (base : List ℕ)
    → all_in m.depends_on base ≡ true
    → Ordered (m ∷ ms) base (added m base)
Ordered-added m ms base d = go (contains m.unique_name base) (is_recorded m.apply)
  where
    go :
        (b c : Bool)
        → Ordered (m ∷ ms) base (if b then [] else if c then m.unique_name ∷ [] else [])
    go true c = tt
    go false true = (record { migration = m; among = inl refl; named = refl; deps = d }, tt)
    go false false = tt

settled-added : (m : Migration) (base : List ℕ) → settled (base ++ added m base) m ≡ true
settled-added m base = go (is_recorded m.apply) (Bool-cases (contains m.unique_name base))
  where
    go :
        (c : Bool)
        → (contains m.unique_name base ≡ true) ⊎ (contains m.unique_name base ≡ false)
        → (not c
            || contains m.unique_name (
                base
                ++ (if contains m.unique_name base
                    then []
                    else if c
                    then m.unique_name ∷ []
                    else [])))
          ≡ true
    go false h = refl
    go true (inl h) = ground (arith, contains-++ m.unique_name base [])
    go true (inr h) = ground (
      arith,
      contains-++ m.unique_name base (m.unique_name ∷ []),
      ==_iff m.unique_name m.unique_name,
    )

pub settled_mono :
    (m : Migration) (xs ys : List ℕ)
    → ((n : ℕ) → contains n xs ≡ true → contains n ys ≡ true)
    → settled xs m ≡ true
    → settled ys m ≡ true
settled_mono m xs ys up h = ground (arith, up m.unique_name)

Turn-applied :
    (m : Migration) (ms left : List Migration) (p : Bool) (s s₁ s' : Session Schema)
    → all_in m.depends_on s.db.records ≡ true
    → s₁.db.records ≡ s.db.records ++ added m s.db.records
    → Turn ms s₁ p left s'
    → Turn (m ∷ ms) s true left s'
Turn-applied m ms left p s s₁ s' d r t =
    let sub : (x : Migration) → Among x ms → Among x (m ∷ ms) = λ x a. inr a in
    let here : settled s₁.db.records m ≡ true =
      subst (λ xs. settled xs m ≡ true) (sym r) (settled-added m s.db.records) in
    let later : settled s'.db.records m ≡ true =
      settled_mono m s₁.db.records s'.db.records
        (λ n c.
          subst (λ xs. contains n xs ≡ true) (sym t.grows)
            (ground (arith, contains-++ n s₁.db.records t.new)))
        here in
    record {
      new = added m s.db.records ++ t.new;
      grows =
          t.grows
          ∙ ap (λ xs. xs ++ t.new) r
          ∙ append_assoc s.db.records (added m s.db.records) t.new;
      ordered =
          Ordered-append (m ∷ ms) s.db.records (added m s.db.records) t.new
            (Ordered-added m ms s.db.records d)
            (subst (λ b. Ordered (m ∷ ms) b t.new) r
              (Ordered-mono ms (m ∷ ms) sub s₁.db.records t.new t.ordered));
      kept = λ x a. inr (t.kept x a);
      no_longer = omega (arith, t.no_longer);
      shorter = λ q. omega (arith, t.no_longer);
      covers = λ rs up h. (settled_mono m s'.db.records rs up later, t.covers rs up h);
      each = λ x a. elim a [
        | inl e ↦ inr (subst (λ y. settled s'.db.records y ≡ true) (sym e) later)
        | inr b ↦ t.each x b
      ];
      idle = λ q. absurd (ground arith);
    }

Turn-blocked :
    (m : Migration) (ms left : List Migration) (p : Bool) (s s' : Session Schema)
    → all_in m.depends_on s.db.records ≡ false
    → Turn ms s p left s'
    → Turn (m ∷ ms) s p (m ∷ left) s'
Turn-blocked m ms left p s s' d t =
    let sub : (x : Migration) → Among x ms → Among x (m ∷ ms) = λ x a. inr a in
    record {
      new = t.new;
      grows = t.grows;
      ordered = Ordered-mono ms (m ∷ ms) sub s.db.records t.new t.ordered;
      kept = λ x a. elim a [ inl e ↦ inl e | inr b ↦ inr (t.kept x b) ];
      no_longer = omega (arith, t.no_longer);
      shorter = λ q. omega (arith, t.shorter q);
      covers = λ rs up h. (h.0, t.covers rs up h.1);
      each = λ x a. elim a [
        | inl e ↦ inl (inl e)
        | inr b ↦ elim (t.each x b) [ inl c ↦ inl (inr c) | inr d ↦ inr d ]
      ];
      idle = λ q. ((t.idle q).0, (ground arith, (t.idle q).1));
    }

module _ (accepts : Accepts) where
  pub round_lem :
      (ms : List Migration) (s : Session Schema) {p : Bool} {left : List Migration}
      {s' : Session Schema}
      → round accepts ms s ≡ (ok (p, left), s')
      → Turn ms s p left s'
  unfolding round
  round_lem [] s {p} {left} {s'} e =
      let eq : (false, [], s) ≡ (p, left, s') = ground arith in
      subst (λ (x : Bool × List Migration × Session Schema). Turn [] s x.0 x.1 x.2) eq (Turn-none s)
  round_lem (m ∷ ms) s {p} {left} {s'} e =
      let (b, s₀, c, e₁) =
        >>=-eq-ok (can_apply m.depends_on) (try_one accepts m (round accepts ms)) s e in
      let (same, q) = can_apply_lem m.depends_on s c in
      go b q (λ w w' l q' r. round_lem ms w {p = q'} {left = l} {s' = w'} r)
        (subst (λ w. try_one accepts m (round accepts ms) b w ≡ (ok (p, left), s')) same e₁)
    where
      go :
          (b : Bool)
          → b ≡ all_in m.depends_on s.db.records
          → ((w w' : Session Schema) (l : List Migration) (q : Bool)
              → round accepts ms w ≡ (ok (q, l), w')
              → Turn ms w q l w')
          → try_one accepts m (round accepts ms) b s ≡ (ok (p, left), s')
          → Turn (m ∷ ms) s p left s'
      go true q later e =
          let (done, s₁, a, e₁) =
            >>=-eq-ok (apply accepts m) (λ _. round accepts ms >>= λ rest. pure (true, rest.1)) s
              e in
          let (rest, s₂, r, e₂) =
            >>=-eq-ok (round accepts ms) (λ rest. pure (true, rest.1)) s₁ e₁ in
          let (deps, r₁) = apply_lem accepts m s a in
          let eq : (true, rest.1, s₂) ≡ (p, left, s') = ground arith in
          subst (λ (x : Bool × List Migration × Session Schema). Turn (m ∷ ms) s x.0 x.1 x.2) eq
            (Turn-applied m ms rest.1 rest.0 s s₁ s₂ deps r₁ (later s₁ s₂ rest.1 rest.0 r))
      go false q later e =
          let (rest, s₂, r, e₂) =
            >>=-eq-ok (round accepts ms) (λ rest. pure (rest.0, m ∷ rest.1)) s e in
          let eq : (rest.0, m ∷ rest.1, s₂) ≡ (p, left, s') = ground arith in
          subst (λ (x : Bool × List Migration × Session Schema). Turn (m ∷ ms) s x.0 x.1 x.2) eq
            (Turn-blocked m ms rest.1 rest.0 s s₂ (sym q) (later s s₂ rest.1 rest.0 r))
