-- ===== src/Mailbox/Events.antt =====
-- mailbox.rs: the calls of any number of threads, one after another, since each holds the lock.
use laas_reflab.Prelude.{
  ℕ, ◌<◌, ◌≡◌, Bool, true, false, String, Option, none, some, List, [], ◌∷◌, ◌++◌, ◌==◌,
  if◌then◌else◌,
}
use laas_reflab.Mailbox.{
  Endpoint, Message, MailboxMessageReceiver, World, same, push, waiter_for, wait_next,
  done_endpoint, clear, peek, pop,
}

pub data Event : Type 0 where
  pushes : Endpoint → String → Event
  registers : Endpoint → Event
  waits : MailboxMessageReceiver → Event
  finishes : Endpoint → Event
  clears peeks pops : Endpoint → Event

-- What a wait returns, with the channel that it read.
abbrev pub logged : ℕ → Option Message → List (ℕ × String)
logged c none = []
logged c (some m) = (c, m.message) ∷ []

module _ (uuid : ℕ → ℕ) where
  unfoldable pub step : Event → World → List (ℕ × String) × World
  step (pushes e text) w = ([], push uuid e text w)
  step (registers e) w = ([], (waiter_for e w).1)
  step (waits r) w = (logged r.recv (wait_next r w).0, (wait_next r w).1)
  step (finishes e) w = ([], done_endpoint e w)
  step (clears e) w = ([], clear e w)
  step (peeks e) w = ([], (peek e w).1)
  step (pops e) w = ([], (pop e w).1)

  unfoldable pub steps : List Event → World → List (ℕ × String) × World
  steps [] w = ([], w)
  steps (ev ∷ evs) w = let rest = steps evs (step ev w).1 in ((step ev w).0 ++ rest.0, rest.1)

-- The texts that waits on a channel returned, in their order.
abbrev pub received : ℕ → List (ℕ × String) → List String
received c [] = []
received c ((d, text) ∷ log) = let rest = received c log in if d == c then text ∷ rest else rest

abbrev pub texts : List Message → List String
texts [] = []
texts (m ∷ ms) = m.message ∷ texts ms

-- The texts pushed for an endpoint.
abbrev pub pushed : Endpoint → List Event → List String
pushed e [] = []
pushed e (pushes f text ∷ evs) = let rest = pushed e evs in if same e f then text ∷ rest else rest
pushed e (ev ∷ evs) = pushed e evs

abbrev pub unfinished : Endpoint → List Event → Bool
unfinished e [] = true
unfinished e (finishes f ∷ evs) = let rest = unfinished e evs in if same e f then false else rest
unfinished e (ev ∷ evs) = unfinished e evs

-- A channel in the map was made, and is of one endpoint only.
pub record Inv (w : World) : Type 0 where
  pub old : (e : Endpoint) (c : ℕ) → w.mailbox.notify_when e ≡ some c → c < w.made
  pub apart :
      (e f : Endpoint) (c : ℕ)
      → w.mailbox.notify_when e ≡ some c
      → w.mailbox.notify_when f ≡ some c
      → same e f ≡ true
