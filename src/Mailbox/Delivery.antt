-- ===== src/Mailbox/Delivery.antt =====
-- mailbox.rs: what is pushed is what waits return.
use mathlib.Core.List.{append_assoc}
use laas_reflab.Prelude.{
  ℕ, suc, ◌<◌, ◌≡◌, refl, sym, ap, subst, ◌∙◌, arith, Bool, true, false, String, Option, none, some,
  List, [], ◌∷◌, ◌++◌, ◌==◌, ==_iff, if◌then◌else◌, append-[], Bool-cases, inl, inr,
}
use laas_reflab.Mailbox.{
  Endpoint, Message, MailboxMessageReceiver, World, same, insert_at, set_queue, drop_message, entry,
  send, keep_messages, new_message, push, waiter_for, taken, wait_next, done_endpoint, clear, peek,
  pop,
}
use laas_reflab.Mailbox.Events.{
  Event, pushes, registers, waits, finishes, clears, peeks, pops, logged, step, steps, received,
  texts, pushed, unfinished, Inv,
}
use laas_reflab.Mailbox.Entry.{same_sym, entry_lem}

-- What a step does to the channel of an endpoint, where it does not finish the endpoint.
record Kept (e : Endpoint) (c : ℕ) (texts_in : List String) (w : World) (log : List (ℕ × String))
    (w' : World) : Type 0 where
  inv : Inv w'
  there : w'.mailbox.notify_when e ≡ some c
  flow : received c log ++ texts (w'.channels c) ≡ texts (w.channels c) ++ texts_in

texts-append : (xs ys : List Message) → texts (xs ++ ys) ≡ texts xs ++ texts ys
texts-append [] ys = refl
texts-append (m ∷ xs) ys = ap (λ l. m.message ∷ l) (texts-append xs ys)

Kept-same :
    (e : Endpoint) (c : ℕ) (w w' : World)
    → Inv w
    → w.mailbox.notify_when e ≡ some c
    → w'.mailbox.notify_when ≡ w.mailbox.notify_when
    → w'.channels c ≡ w.channels c
    → w'.made ≡ w.made
    → Kept e c [] w [] w'
Kept-same e c w w' i h n q k = record {
  inv = record {
    old = λ x d g.
        subst (λ (m : ℕ). d < m) (sym k)
          (i.old x d (subst (λ (f : Endpoint → Option ℕ). f x ≡ some d) n g));
    apart = λ x y d g g'.
        i.apart x y d (subst (λ (f : Endpoint → Option ℕ). f x ≡ some d) n g)
          (subst (λ (f : Endpoint → Option ℕ). f y ≡ some d) n g');
  };
  there = subst (λ (f : Endpoint → Option ℕ). f e ≡ some c) (sym n) h;
  flow = ap texts q ∙ sym (append-[] (texts (w.channels c)));
}

Kept-finish :
    (e f : Endpoint) (c : ℕ) (w : World)
    → Inv w
    → w.mailbox.notify_when e ≡ some c
    → same e f ≡ false
    → Kept e c [] w [] (done_endpoint f w)
unfolding done_endpoint
Kept-finish e f c w i h n = go w.poisoned
  where
    go :
        (b : Bool)
        → Kept e c [] w [] (
            if b then w else record w {
              mailbox = record (w.mailbox) { notify_when = insert_at f none w.mailbox.notify_when };
            })
    go true = Kept-same e c w w i h refl refl refl
    go false = record {
      inv = record {
        old = λ x d g. i.old x d (ground (arith, g));
        apart = λ x y d g g'. i.apart x y d (ground (arith, g)) (ground (arith, g'));
      };
      there = ground (arith, same_sym e f);
      flow = sym (append-[] (texts (w.channels c)));
    }

Kept-entry :
    (e f : Endpoint) (c : ℕ) (w : World)
    → Inv w
    → w.mailbox.notify_when e ≡ some c
    → Kept e c [] w [] (entry f w).1
Kept-entry e f c w i h =
    let n = entry_lem e f c w i h (w.mailbox.notify_when f) refl in
    record {
      inv = n.inv;
      there = n.there;
      flow = ap texts n.queue ∙ sym (append-[] (texts (w.channels c)));
    }

abbrev for_endpoint : Endpoint → Endpoint → String → List String
for_endpoint e f text = if same e f then text ∷ [] else []

Kept-send :
    (e f : Endpoint) (c d : ℕ) (m : Message) (w : World)
    → Inv w
    → w.mailbox.notify_when e ≡ some c
    → (d == c) ≡ same e f
    → Kept e c (for_endpoint e f m.message) w [] (send m (d, w))
Kept-send e f c d m w i h hits = record {
  inv = record { old = i.old; apart = i.apart };
  there = h;
  flow = elim (Bool-cases (d == c)) [
    | inl t ↦
        let same_channel : d ≡ c = (==_iff d c).0 t in
        ground (arith, t, hits, same_channel, texts-append (w.channels c) (m ∷ []))
    | inr n ↦ ground (arith, n, hits, append-[] (texts (w.channels c)))
  ];
}

Kept-push :
    (uuid : ℕ → ℕ) (e f : Endpoint) (text : String) (c : ℕ) (w : World)
    → Inv w
    → w.mailbox.notify_when e ≡ some c
    → w.poisoned ≡ false
    → Kept e c (for_endpoint e f text) w [] (push uuid f text w)
unfolding push
Kept-push uuid e f text c w i h p =
    let stored = record (keep_messages f (some (new_message uuid text w ∷ [])) w) {
      drawn = suc w.drawn;
    } in
    let i₁ : Inv stored = record { old = i.old; apart = i.apart } in
    let n = entry_lem e f c stored i₁ h (stored.mailbox.notify_when f) refl in
    let k =
      Kept-send e f c (entry f stored).0 (new_message uuid text w) (entry f stored).1 n.inv n.there
        n.hits in
    subst
      (λ b.
        Kept e c (for_endpoint e f text) w []
          (if b then w else send (new_message uuid text w) (entry f stored)))
      (sym p)
      (record {
        inv = k.inv;
        there = k.there;
        flow = k.flow ∙ ap (λ q. texts q ++ for_endpoint e f text) n.queue;
      })

Kept-wait :
    (e : Endpoint) (r : MailboxMessageReceiver) (c : ℕ) (w : World)
    → Inv w
    → w.mailbox.notify_when e ≡ some c
    → w.poisoned ≡ false
    → Kept e c [] w (logged r.recv (wait_next r w).0) (wait_next r w).1
unfolding wait_next
Kept-wait e r c w i h p = go (w.channels r.recv) refl
  where
    go :
        (q : List Message)
        → w.channels r.recv ≡ q
        → Kept e c [] w (logged r.recv (taken r q w).0) (taken r q w).1
    go [] o = Kept-same e c w w i h refl refl refl
    go (m ∷ rest) o =
        let lost : World = record w { channels = set_queue r.recv rest w.channels } in
        let after : World = record lost {
          mailbox = record (w.mailbox) { un_acked = drop_message m w.mailbox.un_acked };
        } in
        let outcome : Bool → Option Message × World =
          λ b. if b then (none, lost) else (some m, after) in
        subst (λ b. Kept e c [] w (logged r.recv (outcome b).0) (outcome b).1) (sym p)
          (record {
            inv = record { old = i.old; apart = i.apart };
            there = h;
            flow = elim (Bool-cases (r.recv == c)) [
              | inl t ↦
                  let own : w.channels c ≡ m ∷ rest =
                    ap w.channels (sym ((==_iff r.recv c).0 t)) ∙ o in
                  ground (arith, t, own, append-[] (texts rest))
              | inr n ↦ ground (arith, n, append-[] (texts (w.channels c)))
            ];
          })

taken_poisoned :
    (r : MailboxMessageReceiver) (q : List Message) (w : World)
    → w.poisoned ≡ true
    → (taken r q w).1.poisoned ≡ true
taken_poisoned r [] w p = p
taken_poisoned r (m ∷ rest) w p = ground (arith, p)

step_poisoned :
    (uuid : ℕ → ℕ) (ev : Event) (w : World) → w.poisoned ≡ true → (step uuid ev w).1.poisoned ≡ true
unfolding step push waiter_for wait_next done_endpoint clear peek pop
step_poisoned uuid (pushes e text) w p = ground (arith, p)
step_poisoned uuid (registers e) w p = ground (arith, p)
step_poisoned uuid (waits r) w p = taken_poisoned r (w.channels r.recv) w p
step_poisoned uuid (finishes e) w p = ground (arith, p)
step_poisoned uuid (clears e) w p = ground (arith, p)
step_poisoned uuid (peeks e) w p = ground (arith, p)
step_poisoned uuid (pops e) w p = ground (arith, p)

Kept-step :
    (uuid : ℕ → ℕ) (e : Endpoint) (c : ℕ) (ev : Event) (w : World)
    → Inv w
    → w.mailbox.notify_when e ≡ some c
    → w.poisoned ≡ false
    → unfinished e (ev ∷ []) ≡ true
    → Kept e c (pushed e (ev ∷ [])) w (step uuid ev w).0 (step uuid ev w).1
unfolding step waiter_for clear peek pop
Kept-step uuid e c (pushes f text) w i h p u = Kept-push uuid e f text c w i h p
Kept-step uuid e c (registers f) w i h p u =
    subst (λ b. Kept e c [] w [] (waiting b).1) (sym p) (Kept-entry e f c w i h)
  where
    waiting : Bool → Option MailboxMessageReceiver × World
    waiting b =
        if b
        then (none, w)
        else (some (record { recv = (entry f w).0; for_endpoint = f }), (entry f w).1)
Kept-step uuid e c (waits r) w i h p u = Kept-wait e r c w i h p
Kept-step uuid e c (finishes f) w i h p u = Kept-finish e f c w i h (ground (arith, u))
Kept-step uuid e c (clears f) w i h p u =
    Kept-same e c w (clear f w) i h (ground arith) (ground arith) (ground arith)
Kept-step uuid e c (peeks f) w i h p u =
    Kept-same e c w (peek f w).1 i h (ground arith) (ground arith) (ground arith)
Kept-step uuid e c (pops f) w i h p u =
    Kept-same e c w (pop f w).1 i h (ground arith) (ground arith) (ground arith)

pushed-∷ :
    (e : Endpoint) (ev : Event) (evs : List Event)
    → pushed e (ev ∷ evs) ≡ pushed e (ev ∷ []) ++ pushed e evs
pushed-∷ e (pushes f text) evs = ground arith
pushed-∷ e (registers f) evs = refl
pushed-∷ e (waits r) evs = refl
pushed-∷ e (finishes f) evs = refl
pushed-∷ e (clears f) evs = refl
pushed-∷ e (peeks f) evs = refl
pushed-∷ e (pops f) evs = refl

unfinished-∷ :
    (e : Endpoint) (ev : Event) (evs : List Event)
    → unfinished e (ev ∷ evs) ≡ true
    → (unfinished e (ev ∷ []) ≡ true) × (unfinished e evs ≡ true)
unfinished-∷ e (pushes f text) evs u = (refl, u)
unfinished-∷ e (registers f) evs u = (refl, u)
unfinished-∷ e (waits r) evs u = (refl, u)
unfinished-∷ e (finishes f) evs u = ground (arith, u)
unfinished-∷ e (clears f) evs u = (refl, u)
unfinished-∷ e (peeks f) evs u = (refl, u)
unfinished-∷ e (pops f) evs u = (refl, u)

received-append :
    (c : ℕ) (xs ys : List (ℕ × String)) → received c (xs ++ ys) ≡ received c xs ++ received c ys
received-append c [] ys = refl
received-append c ((d, text) ∷ xs) ys = ground (arith, received-append c xs ys)

steps_poisoned :
    (uuid : ℕ → ℕ) (evs : List Event) (w : World)
    → w.poisoned ≡ true
    → (steps uuid evs w).1.poisoned ≡ true
unfolding steps
steps_poisoned uuid [] w p = p
steps_poisoned uuid (ev ∷ evs) w p =
    steps_poisoned uuid evs (step uuid ev w).1 (step_poisoned uuid ev w p)

-- While an endpoint has a channel, nothing is lost, doubled or put in another order: after any calls of
-- which none finishes the endpoint and none panics with the lock held, what the waits on the channel have
-- returned, followed by what is still in the channel, is what was in it before, followed by what was
-- pushed for the endpoint. The endpoint still has that channel, and no other endpoint has it.
pub steps_deliver :
    (uuid : ℕ → ℕ) (e : Endpoint) (c : ℕ) (evs : List Event) (w : World)
    → Inv w
    → w.mailbox.notify_when e ≡ some c
    → unfinished e evs ≡ true
    → (steps uuid evs w).1.poisoned ≡ false
    → Inv (steps uuid evs w).1
      × ((steps uuid evs w).1.mailbox.notify_when e ≡ some c)
      × (received c (steps uuid evs w).0 ++ texts ((steps uuid evs w).1.channels c)
          ≡ texts (w.channels c) ++ pushed e evs)
unfolding steps
steps_deliver uuid e c [] w i h u p = (i, h, sym (append-[] (texts (w.channels c))))
steps_deliver uuid e c (ev ∷ evs) w i h u p =
    let (u₁, u₂) = unfinished-∷ e ev evs u in
    let alive : w.poisoned ≡ false = elim (Bool-cases w.poisoned) [
      | inl t ↦ absurd (ground (arith, steps_poisoned uuid (ev ∷ evs) w t))
      | inr f ↦ f
    ] in
    let k = Kept-step uuid e c ev w i h alive u₁ in
    let (i', h', flow) = steps_deliver uuid e c evs (step uuid ev w).1 k.inv k.there u₂ p in
    let log = (step uuid ev w).0 in
    let later = (steps uuid evs (step uuid ev w).1).0 in
    (
      i',
      h',
      ap (λ l. l ++ texts ((steps uuid evs (step uuid ev w).1).1.channels c))
            (received-append c log later)
          ∙ append_assoc (received c log) (received c later)
              (texts ((steps uuid evs (step uuid ev w).1).1.channels c))
          ∙ ap (λ l. received c log ++ l) flow
          ∙ sym
              (append_assoc (received c log) (texts ((step uuid ev w).1.channels c)) (pushed e evs))
          ∙ ap (λ l. l ++ pushed e evs) k.flow
          ∙ append_assoc (texts (w.channels c)) (pushed e (ev ∷ [])) (pushed e evs)
          ∙ ap (λ l. texts (w.channels c) ++ l) (sym (pushed-∷ e ev evs)),
    )
