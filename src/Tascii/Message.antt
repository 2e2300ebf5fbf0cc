-- ===== src/Tascii/Message.antt =====
-- src/tascii/src/scheduler.rs: the messages of the orchestrator.
use laas_reflab.Prelude.{ℕ}
use laas_reflab.Tascii.OneShot.{TaskError}

pub data TaskMessage : Type 0 where
  complete cancel timeout target : ℕ → TaskMessage
  failure stop : ℕ → TaskError → TaskMessage
  heartbeat diagnostic : TaskMessage
  depend un_depend : ℕ → ℕ → TaskMessage
