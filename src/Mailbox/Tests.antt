-- ===== src/Mailbox/Tests.antt =====
-- Runs of the mailbox: two hosts report, and one of them is waited for.
use laas_reflab.Prelude.{
  ℕ, ◌≡◌, refl, subst, arith, true, false, Option, none, some, List, [], ◌∷◌, ◌++◌, ◌==◌,
  if◌then◌else◌,
}
use laas_reflab.Mailbox.{
  Endpoint, Message, MailboxMessageReceiver, World, same, push, waiter_for, wait_next,
  done_endpoint, peek,
}
use laas_reflab.Mailbox.Events.{
  Event, pushes, registers, waits, finishes, peeks, step, steps, received, texts, Inv,
}
use laas_reflab.Mailbox.Entry.{same-eq}
use laas_reflab.Mailbox.Delivery.{steps_deliver}

abbrev ids : ℕ → ℕ
ids n = n

abbrev first : Endpoint
first = record { for_instance = 1; unique = 10 }

abbrev second : Endpoint
second = record { for_instance = 2; unique = 20 }

abbrev booted : Message
booted = record { id = 0; expired = false; message = "booted" }

-- One message has been pushed for the first endpoint, before anybody waits.
abbrev channel_of : Endpoint → Option ℕ
channel_of e = if same first e then some 0 else none

abbrev queues : ℕ → List Message
queues c = if c == 0 then booted ∷ [] else []

abbrev reported : World
reported = record {
  mailbox = record {
    messages = λ e. if same first e then some (booted ∷ []) else none;
    un_acked = [];
    notify_when = channel_of;
  };
  poisoned = false;
  channels = queues;
  made = 1;
  drawn = 1;
}

reported-Inv : Inv reported
reported-Inv = record {
  old = λ e c h. ground (arith, h);
  apart = λ e f c h g.
      let a : same first e ≡ true = ground (arith, h) in
      let b : same first f ≡ true = ground (arith, g) in
      subst (λ z. same z f ≡ true) (same-eq first e a) b;
}

abbrev waiter : MailboxMessageReceiver
waiter = record { recv = 0; for_endpoint = first }

abbrev events : List Event
events =
    registers first
    ∷ pushes second "lost power"
    ∷ pushes first "provisioned"
    ∷ waits waiter
    ∷ peeks second
    ∷ waits waiter
    ∷ pushes first "done"
    ∷ finishes second
    ∷ []

test_log : (steps ids events reported).0 ≡ (0, "booted") ∷ (0, "provisioned") ∷ []
unfolding steps step push waiter_for wait_next done_endpoint peek
test_log = refl

-- Peeking after two pushes shows the second message only.
test_peek :
    (peek first (push ids first "again" reported)).0
    ≡ some (record { id = 1; expired = false; message = "again" })
unfolding push peek
test_peek = refl

-- A `peek` of an endpoint that never had a message ends the mailbox for everybody.
test_poisoned : (waiter_for first (peek second reported).1).0 ≡ none
unfolding waiter_for peek
test_poisoned = refl

steps_deliver_example :
    Inv (steps ids events reported).1
    × ((steps ids events reported).1.mailbox.notify_when first ≡ some 0)
    × (received 0 (steps ids events reported).0 ++ texts ((steps ids events reported).1.channels 0)
        ≡ "booted" ∷ "provisioned" ∷ "done" ∷ [])
unfolding steps step push waiter_for wait_next done_endpoint peek
steps_deliver_example = steps_deliver ids first 0 events reported reported-Inv refl refl refl
