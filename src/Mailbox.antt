-- ===== src/Mailbox.antt =====
-- src/workflows/src/resource_management/mailbox.rs: the mailbox, its lock, and the channels through which
-- it tells those who wait. A map is a function. Of crossbeam's unbounded channels there is the queue; a
-- wait is a step at the moment when it ends. The n-th new id is a parameter.
pub mod Events
pub mod Entry
pub mod Delivery
mod Tests
use text.Mathlib.Text.{◌==◌ as str_eq}
use laas_reflab.Prelude.{
  ℕ, suc, Bool, true, false, ◌&&◌, String, Option, none, some, List, [], ◌∷◌, ◌++◌, ◌==◌,
  if◌then◌else◌,
}

pub record Endpoint : Type 0 where
  pub for_instance : ℕ
  pub unique : ℕ

pub record Message : Type 0 where
  pub id : ℕ
  pub expired : Bool
  pub message : String

pub record Mailbox : Type 0 where
  pub messages : Endpoint → Option (List Message)
  pub un_acked : List Message
  -- The channel of an endpoint, of which the map keeps both ends.
  pub notify_when : Endpoint → Option ℕ

-- Without its `received`, which is only for `get_log`.
pub record MailboxMessageReceiver : Type 0 where
  pub recv : ℕ
  pub for_endpoint : Endpoint

-- `poisoned` says that a thread panicked while it held the lock. `made` counts the channels made.
pub record World : Type 0 where
  pub mailbox : Mailbox
  pub poisoned : Bool
  pub channels : ℕ → List Message
  pub made : ℕ
  pub drawn : ℕ

abbrev pub same : Endpoint → Endpoint → Bool
same a b = a.for_instance == b.for_instance && a.unique == b.unique

abbrev pub same_flag : Bool → Bool → Bool
same_flag true b = b
same_flag false true = false
same_flag false false = true

abbrev pub same_message : Message → Message → Bool
same_message a b = a.id == b.id && same_flag a.expired b.expired && str_eq a.message b.message

module _ {V : Type 0} where
  abbrev pub insert_at : Endpoint → Option V → (Endpoint → Option V) → Endpoint → Option V
  insert_at e v f x = if same e x then v else f x

abbrev pub set_queue : ℕ → List Message → (ℕ → List Message) → ℕ → List Message
set_queue c q f d = if c == d then q else f d

abbrev pub drop_message : Message → List Message → List Message
drop_message m [] = []
drop_message m (x ∷ xs) =
    let rest = drop_message m xs in if same_message m x then rest else x ∷ rest

-- `notify_when.entry(endpoint).or_insert_with(…)`.
abbrev pub entry_at : Option ℕ → Endpoint → World → ℕ × World
entry_at (some c) e w = (c, w)
entry_at none e w = (
  w.made,
  record w {
    mailbox = record (w.mailbox) { notify_when = insert_at e (some w.made) w.mailbox.notify_when };
    channels = set_queue w.made [] w.channels;
    made = suc w.made;
  },
)

abbrev pub entry : Endpoint → World → ℕ × World
entry e w = entry_at (w.mailbox.notify_when e) e w

abbrev pub send : Message → ℕ × World → World
send m (c, w) = record w { channels = set_queue c (w.channels c ++ m ∷ []) w.channels }

abbrev pub poison : World → World
poison w = record w { poisoned = true }

abbrev pub keep_messages : Endpoint → Option (List Message) → World → World
keep_messages e q w = record w {
  mailbox = record (w.mailbox) { messages = insert_at e q w.mailbox.messages };
}

module _ (uuid : ℕ → ℕ) where
  abbrev pub new_message : String → World → Message
  new_message text w = record { id = uuid w.drawn; expired = false; message = text }

  -- The queue of the endpoint is made anew, with this message alone.
  pub push : Endpoint → String → World → World
  push e text w =
      if w.poisoned
      then w
      else send (new_message text w) (
          entry e
            (record (keep_messages e (some (new_message text w ∷ [])) w) { drawn = suc w.drawn }))

pub waiter_for : Endpoint → World → Option MailboxMessageReceiver × World
waiter_for e w =
    if w.poisoned
    then (none, w)
    else (some (record { recv = (entry e w).0; for_endpoint = e }), (entry e w).1)

abbrev pub taken : MailboxMessageReceiver → List Message → World → Option Message × World
taken r [] w = (none, w)
taken r (m ∷ rest) w =
    let after = record w { channels = set_queue r.recv rest w.channels } in
    if w.poisoned then (none, after) else (
      some m,
      record after {
        mailbox = record (w.mailbox) { un_acked = drop_message m w.mailbox.un_acked };
      },
    )

-- The message that it returns, if the wait does not end in a timeout, a closed channel or a panic.
pub wait_next : MailboxMessageReceiver → World → Option Message × World
wait_next r w = taken r (w.channels r.recv) w

pub done_endpoint : Endpoint → World → World
done_endpoint e w = if w.poisoned then w else record w {
  mailbox = record (w.mailbox) { notify_when = insert_at e none w.mailbox.notify_when };
}

pub clear : Endpoint → World → World
clear e w = if w.poisoned then w else keep_messages e none w

abbrev pub front : Option (List Message) → Option Message
front none = none
front (some []) = none
front (some (m ∷ ms)) = some m

abbrev pub tail : Option (List Message) → Option (List Message)
tail none = none
tail (some []) = some []
tail (some (m ∷ ms)) = some ms

-- `expect` panics with the lock held when there is no message.
pub peek : Endpoint → World → Option Message × World
peek e w =
    if w.poisoned
    then (none, w)
    else elim (front (w.mailbox.messages e)) [ some m ↦ (some m, w) | none ↦ (none, poison w) ]

pub pop : Endpoint → World → Option Message × World
pop e w = if w.poisoned then (none, w) else elim (front (w.mailbox.messages e)) [
  | some m ↦ (some m, keep_messages e (tail (w.mailbox.messages e)) w)
  | none ↦ (none, poison w)
]
