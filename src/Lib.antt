-- ===== src/Lib.antt =====
-- Verification of the firmware and the Linux driver of the virtual accelerator management SoC.
--
-- The host hands commands to the management CPU through a portal device. The firmware checks each
-- command, queues it by deadline, gives it to the engine, and publishes one completion. Service
-- tasks show their progress by epochs, which a health tracker watches before the watchdog is
-- petted. A record in a retention memory of the management device survives resets and tells the
-- next boot what happened before.
--
-- Parts, by file:
--   Abi          firmware/include/vams_abi.h: submission descriptor and completion.
--   Command      firmware/src/command/vams_command.c: vams_validate_command and
--                vams_command_execute, in the order of the source's checks. Spec states what is
--                accepted over unbounded numbers; Validate, Errors and Execute relate the two.
--   Overload     firmware/include/vams_overload.h: the saturating counter, the admission test.
--   Health       firmware/src/health/vams_health.c: the tracker; Freeze and Episodes follow it
--                through sequences of updates.
--   Atomic       firmware/src/main.c and firmware/src/logging/vams_event.c: the compare-and-swap
--                loops. Every atomic access of a thread is one step, and any thread may step.
--   Retained     firmware/src/recovery/vams_retained.c: the record, its checksum, its event ring.
--   Management   firmware/drivers/vams_management.c: registers, watchdog and retention memory.
--   Portal       firmware/drivers/vams_command_portal.c: descriptors in, completions out.
--   Mailbox      firmware/drivers/vams_mailbox.c: the interrupt handler and the two calls.
--   Log          vams_retained.c and vams_event.c, the calls on the shared record, the device and
--                the event queue.
--   Scheduler    firmware/src/scheduler/vams_scheduler.c: the command object and its states.
--   Tasks        firmware/src/main.c: helpers of the tasks (selection of the next command, queue
--                put, publication of a completion).
--   Pipeline     firmware/src/main.c: the five tasks that pass command objects on. Store has the
--                variables that they share, the slab and the queues, and where each task stands;
--                Work what a task does to the object that it owns; Intake (receiver, validator),
--                Dispatch (scheduler) and Outcome (recovery manager, completion task) the steps; and
--                Steps their interleaving, with the host acting on the portal in between. Places says
--                where an object can be and what its owner relies on there, Ownership that an object
--                is at one place, Invariant what holds between two steps, and Handing what a queue
--                does to it. Admitting to Completing show it for each task, Safety for all, and
--                Turning and Bounded follow the recovery manager to the end of a command.
--   Services     firmware/src/main.c: the mailbox service (Mail, Answering), the health monitor
--                (Watch, Petting, Reports, Turns) and the heartbeat from producer to monitor (Beats,
--                Counted).
--   Host         kernel/vams_pci.c with kernel/vams_regs.h and kernel/include/uapi/linux/vams.h, the
--                Linux driver. State has the objects that are shared by address and counted by
--                reference; Access the lookup of buffers and the descriptor; Requests the tracking and
--                the end of requests; Queues the two rings; Interrupts the handlers and the deferred
--                work; Buffers, Wait, Ioctl and Files the calls of a process; Bound, Acquire and Probe
--                the way in and out of the driver. Tables, Frames, Finish, Cancel, Walk, Taken, Drain, Track,
--                Insertion, Choice, Submission, Success, Pinned, Reaping, Labels, Unwind and Removal have
--                the proofs.
--   Zephyr       what is taken from the RTOS and the machine: a message queue, a slab, a memory-mapped
--                bus, status codes. These are records of operations and laws that the components
--                take as parameters; Zephyr/Model has an instance of each, and Zephyr/Words the
--                loops that copy a structure to or from registers word by word.
--   Base         numbers, lists, bit operations and machine words shared by all of these.
--   Tests        the theorems at concrete inputs.
--
-- Conventions. A machine word is a natural number, and wrapping is written out. A field of a
-- little-endian structure is the number that its bytes hold. Memory is that of a little-endian
-- RV32 CPU. The build sets CONFIG_ASSERT, so a failed assertion stops the program: it is `none`,
-- and so is a write past the event ring, which C leaves undefined. A theorem that a call gives
-- `some` says that neither happens. Successive answers of k_uptime_get are a parameter `clock`.
-- Spin locks make the calls on the record single steps. Loops run along a list or count down the
-- turns that the source's bound leaves. The publication alone runs on fuel, one turn
-- more than its timeout has milliseconds, and is proved to end within it.
--
-- A step of a command task runs up to its next wait, its next hand-over or its next access to the
-- portal. A publication is one try a step, so that it ends or requests the reset without fuel. A
-- block of the slab is named by its number, 0 to 7, and a command object is reached by it. The
-- waits of the driver's portal calls are counted in polls, as many as a parameter gives for a time,
-- and what the host does to the portal during them is a parameter too.
--
-- The driver's calls of the kernel are arguments that give their outcome. A pointer is an address
-- in a store of objects, and an object whose counter is 0 has been freed. The locks of the driver
-- make each of its calls one step, and barriers order accesses that are in order here. The search for a
-- command id has the source's 32 turns, and the walk over the completion ring 16, one more than
-- the entries that can stand between a head and a tail.
--
-- Not modelled: of firmware/src/main.c the event logger and the report of the resources, which only
-- print, the start-up in main(), and the branches of the build options CONFIG_VAMS_OVERLOAD_TEST,
-- CONFIG_VAMS_HEALTH_TEST and CONFIG_VAMS_SCHEDULER_TEST_DELAY_MS; of the Linux driver the
-- self-tests of a build with CONFIG_VAMS_PCI_TESTING, cache maintenance, messages to the log and
-- calls that interleave inside a lock; the bare-metal image, the QEMU patches, tests and scripts.
pub mod Base
pub mod Abi
pub mod Command
pub mod Overload
pub mod Health
pub mod Atomic
pub mod Retained
pub mod Zephyr
pub mod Management
pub mod Log
pub mod Scheduler
pub mod Tasks
pub mod Pipeline
pub mod Services
pub mod Host
pub mod Tests
pub mod Portal
pub mod Mailbox
