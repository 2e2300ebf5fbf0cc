-- ===== src/Mailbox/Entry.antt =====
-- mailbox.rs: the map from endpoints to channels, and `entry(…).or_insert_with(…)`.
use laas_reflab.Prelude.{
  ℕ, suc, ◌<◌, ◌≡◌, refl, ap, subst, ◌∙◌, arith, true, false, Option, none, some, ◌==◌, ==_iff,
  Bool-cases, inl, inr,
}
use laas_reflab.Mailbox.{Endpoint, World, same, insert_at, entry_at}
use laas_reflab.Mailbox.Events.{Inv}

pub same_refl : (e : Endpoint) → same e e ≡ true
same_refl e = ground (arith, ==_iff e.for_instance e.for_instance, ==_iff e.unique e.unique)

pub same-eq : (e f : Endpoint) → same e f ≡ true → e ≡ f
same-eq e f h = ground (arith, ==_iff e.for_instance f.for_instance, ==_iff e.unique f.unique)

-- What `entry` leaves, seen from an endpoint whose channel is there.
pub record Entered (e f : Endpoint) (c : ℕ) (w : World) (d : ℕ) (w' : World) : Type 0 where
  pub inv : Inv w'
  pub there : w'.mailbox.notify_when e ≡ some c
  pub queue : w'.channels c ≡ w.channels c
  pub hits : (d == c) ≡ same e f
  pub alive : w'.poisoned ≡ w.poisoned

pub same_sym : (e f : Endpoint) → same e f ≡ same f e
same_sym e f = ground (
  arith,
  ==_iff e.for_instance f.for_instance,
  ==_iff f.for_instance e.for_instance,
  ==_iff e.unique f.unique,
  ==_iff f.unique e.unique,
)

-- A channel that is made for an endpoint that had none.
pub Inv-entry :
    (f : Endpoint) (w : World) → Inv w → w.mailbox.notify_when f ≡ none → Inv (entry_at none f w).1
Inv-entry f w i o = record { old = old; apart = apart }
  where
    notify : Endpoint → Option ℕ
    notify = insert_at f (some w.made) w.mailbox.notify_when

    old : (x : Endpoint) (k : ℕ) → notify x ≡ some k → k < suc w.made
    old x k h = elim (Bool-cases (same f x)) [
      | inl t ↦ ground (arith, t)
      | inr n ↦
          let before : w.mailbox.notify_when x ≡ some k = ground (arith, n) in
          omega (arith, i.old x k before)
    ]

    apart : (x y : Endpoint) (k : ℕ) → notify x ≡ some k → notify y ≡ some k → same x y ≡ true
    apart x y k h g = elim (Bool-cases (same f x)) [
      | inl t ↦ elim (Bool-cases (same f y)) [
        | inl u ↦ subst (λ z. same z y ≡ true) (same-eq f x t) u
        | inr n ↦
            let before : w.mailbox.notify_when y ≡ some k = ground (arith, n) in
            let small = i.old y k before in
            let new : w.made ≡ k = ground (arith, t) in absurd (omega arith)
      ]
      | inr m ↦
          let before : w.mailbox.notify_when x ≡ some k = ground (arith, m) in
          elim (Bool-cases (same f y)) [
            | inl u ↦
                let small = i.old x k before in
                let new : w.made ≡ k = ground (arith, u) in absurd (omega arith)
            | inr n ↦ i.apart x y k before (ground (arith, n))
          ]
    ]

pub entry_lem :
    (e f : Endpoint) (c : ℕ) (w : World)
    → Inv w
    → w.mailbox.notify_when e ≡ some c
    → (o : Option ℕ) → w.mailbox.notify_when f ≡ o
    → Entered e f c w (entry_at o f w).0 (entry_at o f w).1
entry_lem e f c w i h (some d) o = record {
  inv = i;
  there = h;
  queue = refl;
  alive = refl;
  hits = elim (Bool-cases (same e f)) [
    | inl t ↦
        let at_f : w.mailbox.notify_when f ≡ some c =
          subst (λ x. w.mailbox.notify_when x ≡ some c) (same-eq e f t) h in
        ground (arith, t, ==_iff d c)
    | inr n ↦
        let differ : d ≡ c → same e f ≡ true = λ q. i.apart e f c h (o ∙ ap some q) in
        ground (arith, n, ==_iff d c, differ)
  ];
}
entry_lem e f c w i h none o =
    let other : same f e ≡ false = elim (Bool-cases (same f e)) [
      | inl t ↦ absurd (
          let at_e : w.mailbox.notify_when e ≡ none =
            subst (λ x. w.mailbox.notify_when x ≡ none) (same-eq f e t) o in
          ground arith)
      | inr n ↦ n
    ] in
    let before = i.old e c h in
    record {
      inv = Inv-entry f w i o;
      there = ground (arith, other);
      queue = ground (arith, before);
      hits = ground (arith, before, other, same_sym e f);
      alive = refl;
    }
