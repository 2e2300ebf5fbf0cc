-- ===== src/Lib.antt =====
-- Verification of the resource allocation and of the task runtime of the repository.
--
-- A booking is deployed by tasks of the runtime in src/tascii. A task spawns others through its
-- `Context`, the orchestrator starts a task when the tasks that it depends on are done, and a task's
-- result is a oneshot, completed once by the task, its timeout or a cancellation. The tasks get hosts
-- and VLANs from the `Allocator` of src/workflows, which runs the operations of `ResourceHandle`, in
-- src/models, on a database, through the transactions of src/dal.
--
-- Prelude: names of the libraries, Boolean tests on numbers, lists.
-- Tascii/OneShot: src/tascii/src/oneshot.rs. `Laws` is about one thread at a time; `Race` has a step
--   relation for any number of threads in `complete_with`, with reads at any moment.
-- Tascii/Message, Tascii/Runtime: src/tascii/src/runtime.rs and task_runtime.rs. A `World` has the
--   tasks in memory, the targets, the channel, and the orchestrator's running tasks and threads.
-- Tascii/Scheduler: src/tascii/src/scheduler.rs. `handle` is one turn of `task_loop`; `Events` is any
--   history of calls, timers, results and timeouts of tasks, and messages. A loop runs over a list, so none needs
--   fuel: nothing is pushed onto the queue of `target`.
-- Tascii/Context: src/tascii/src/workflows.rs, the log of the tasks that a task has spawned.
-- Dal/Transaction: src/dal/src/lib.rs, `EasyTransaction`. `Keeps` has the rules by which a property of
--   the tables is kept.
-- Dal/Migrations: `Migration::apply` and `initialize`. `Order` is about one migration, `Rounds` about a
--   turn of the loop, `Firm` about its errors, `Initialize` about the loop. Its fuel is one more than there are migrations, since
--   a turn that goes on has applied one. `Progress` is about a database that accepts every statement.
-- Dal/Table: the default methods of `DBTable` on the rows of a table. `Columns` is about `SET`, `Entries`
--   about the models that the rows stand for, `Effects` about lists of models, `Refinement` and `Calls`
--   about the methods.
-- Models/Rows: the rows that a model is converted to and from, and the columns of a table.
-- Models/Inventory, Models/Dashboard: a file per table of src/models/src/inventory.rs and dashboard.rs,
--   each with `columns`, `to_rowlike` and `from_row`; Models/JsonModel has the tables kept as JSON.
-- Models/Tables: the tables by their names; Models/Methods gives each the methods of `DBTable`.
-- Allocation/Db: the tables of src/models/src/allocation.rs and those that it reads.
-- Allocation/Handle: the operations of `ResourceHandle` in src/models/src/allocation.rs. `Free` is
--   about the searches, `Found` has the invariant, `Grants`, `Releases`, `Progress` and `ReleaseAll`
--   are about `allocate_one`, `deallocate_one` and `deallocate_all`.
-- Allocation/Allocator: src/workflows/src/resource_management/allocator.rs. `Keeping` is about all of
--   its operations, `Given` is about one VLAN, `Vlans` and `Rollback` about the VLANs of a booking.
-- Deploy: src/workflows/src/deploy_booking/mod.rs, the retry loops of `SingleHostDeploy`.
-- Deploy/Host: src/workflows/src/deploy_booking/deploy_host.rs, `DeployHost::run` as a trace of its calls.
--   `Retried` is about `retry_for`, `Milestones` about the order of the steps.
-- Deploy/Freeing: `free_hosts` and `mark_not_working` of the same mod.rs, over the allocator. `Ready` is
--   about what the database lets an aggregate give back, `Frees` and `Moves` about the two functions.
-- Deploy/Booking: `BookingTask::run` of the same mod.rs, over the allocator, without what the tasks that it
--   spawns do to the tables.
-- Deploy/Cleanup: src/workflows/src/cleanup_booking/mod.rs, `CleanupAggregate::run`, over the allocator.
-- Network: src/workflows/src/resource_management/network.rs; `Configs` has the configs of deploy_host.rs, and
--   `Commands` what cisco.rs makes of them. `Coverage` is about the config of a template, `Applied`
--   about the commands of the others, `OneSwitch` about the switches.
-- Mailbox: src/workflows/src/resource_management/mailbox.rs, the messages of hosts that boot. `Events` is
--   any sequence of calls, `Entry` is about the map of channels, `Delivery` about what waits return.
-- CloudInit: the files that `get_ci_file` of the same mailbox.rs serves to a host.
-- Config: src/config/src/lib.rs, the texts of `HostPortPair`.
-- The modules named Tests run the definitions and apply the theorems to those runs.
--
-- Ids are numbers, times are numbers, maps and sets are lists, or functions in the mailbox. The n-th id
-- or time drawn, the order of the rows of a query, a shuffle, the clone of a value, whether the
-- database takes a row of the runtime, what a spawned task or a waiting host answers, and base64 are
-- parameters, of which nothing is assumed. The connection of the allocator does not fail. A loop that
-- retries runs over the number of its attempts, so it needs no fuel. An `i16` or a `u16` has five
-- digits at most, which is the fuel of its text.
--
-- The operations on the tables are of one thread: each runs on the tables that it finds. That two
-- callers of the allocator can have transactions open at the same time is not modelled: its lock does
-- not keep them apart, since it is given back before the caller's transaction ends, and a release does
-- not take it.
--
-- Not modelled: the client, the web service, mail, users, the calls of IPMI, Cobbler and the VPN,
-- which are input and output; the bodies of the other tasks; the hash of a migration, which nothing
-- reads. Of a database Dal/Table has the types, NOT NULL and the primary key, and takes its other
-- constraints as a parameter; Allocation/Db has those of its tables that the migrations state. What
-- serde_json and uuid do is a parameter, with the hypothesis that they read back what they write.
pub mod Prelude
pub mod Tascii
pub mod Dal
pub mod Allocation
pub mod Deploy
pub mod Models
pub mod Mailbox
pub mod CloudInit
pub mod Network
pub mod Config
