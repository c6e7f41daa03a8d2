-- ===== src/Lib.antt =====
-- righack: a verification library for the program in src/, which opens virtual serial ports and keys
-- a radio by hamlib as the software on the other side of a port sets the RTS line.
--
-- The parts. src/main.c loads the configuration and schedules the start of a module for each of its
-- sections; src/runloop.c runs the scheduled jobs and libuv's events; src/module.c and src/driver.c
-- keep the registries and the life cycles of modules and drivers; src/modules/test.c, the one
-- module, makes an instance of src/drivers/vserial.c, the one driver, opens the radio and keys it in
-- the driver's callback `fc_changed`; src/configfile.c reads the configuration by tomlc99; src/log.c,
-- src/util.c, src/guts.c and src/external/autodie.c print messages and end the process.
--
-- The model. Machine is the state of the process: memory as a function from addresses to structures
-- (Machine/Objects has one record for each of the source's structures), the static variables of the
-- files, and a state `ext` of all that lies outside. A command runs to a value, or stops the process:
-- by `util_fatal` with the format of its message, by `exit`, by a memory fault (an access to a block
-- that is not there, or freeing one twice), or because a loop of the model ran out of fuel. External
-- has one record of operations for each of libuv, tomlc99, hamlib and the system calls; nothing is
-- assumed of them, and a theorem that needs a documented law of one states it as a hypothesis. A
-- function keeps its name; where it is also the constructor of a function pointer, the function has
-- `_run` at its end. Inner loops and branches have definitions of their own, named for what they do.
--   Machine/Extends and Machine/Others: what a command leaves of the state before it, block by block. Machine/Ends: a
--     command that returns, or ends by `util_fatal` because a call outside failed.
--   Runloop/Later: the queue of jobs; Chain and Schedule: its shape, and a job put at its end;
--     Drain: the rounds of a pass, with callbacks that schedule further jobs; Stops: a job that ends the process.
--   Runloop/Loop: starting, running and (Loop/Cleanup) cleaning up the loop. Runloop/Poll and Runloop/Timer: the
--     handles; Timer/Refine: a timer as one value that each call changes.
--   Configfile, Driver, Module, Vserial, TestModule: the files of these names; Configfile/Keys:
--     lookups while jobs wait; Vserial/Port opens and names a port, Vserial/Packet handles its events,
--     Vserial/Built, Vserial/Tied and Vserial/Init are `vserial_lifecycle_init` as a whole.
--   Main: src/main.c and the targets of all function pointers, so that a whole run can be computed.
--     Main/Start: the jobs for the sections. Main/Opening, Main/Attach, Main/Launch (Launched: what it
--     leaves), Main/Section and Main/Startup (Ready: what it leaves): such a job step by step, from
--     the driver's instance to the whole pass, each step with the ends of the process; Main/Run
--     schedules the one section first. Main/Sections schedules several; Main/Starts and
--     Main/Deliveries: the pass that starts their modules and then delivers the lines of their ports;
--     Main/Pass: that pass as a whole; Main/Ports and Main/Polled: several modules whose ports are
--     polled, and events of their handles in any order. Main/Boot: the statements of `main` before the schedule.
--     Main/Whole and Main/Empty: `main` from start to end with sections and with none; Main/Calls
--     and Main/Interrupt: what libuv's handles are when it returns control.
--     Main/Wired, Main/Ptt and Main/Events: the radio follows RTS through events of the port.
--     Main/Followed and Main/Radios: several ports, each with its own radio, and events of all; Main/Awaited
--     and Main/Synced: the pass that delivers their lines for the first time, with those events.
--     Main/Shutdown: stopping a running module.
--   Interface: the declarations of src/interface.h, which nothing uses.
--   Log and Errors: messages and the end of the process, over a smaller state of their own (levels,
--     the message buffer, the die handler, the lines that were printed); Errors/Failed: what a failed allocation comes to; Errors/Levels: the macro of
--     each level; Log/Reference: the base name by the last slash; Errors/Hamlib: the handler that
--     passes hamlib's messages on.
--   Tests: concrete instances of the four records of External, an example of each theorem, and whole
--     runs of `main`.
--
-- Fuel. Loops over a list that is known when they start are structural. The pass over the queue, the
-- count of sections and the two registry searches take fuel, one unit a round, and stop with
-- `out_of_fuel` where it does not suffice: a pass needs one more than the jobs that it runs, the
-- count one more than the sections, and a search that does not end at its first entry stays there.
-- `util_zalloc` takes fuel for how deep a report of a failed allocation may allocate again: the
-- report allocates the message buffer, and autodie.c stops a second failure.
--
-- Events. libuv calls back in the order of an explicit list; nothing is assumed of that order.
--
-- Not modelled: src/external/toml.c (a copy of tomlc99, taken as the record Toml), the kernel patch
-- and the scripts. The formatting of messages is left out: a message is its format, or its text where
-- the log is the subject. Allocation in Machine always succeeds, so an end with status 100, as
-- autodie.c and main.c make it of a failure (Errors), does not occur there; logging is left out of
-- the commands over Machine. The registries are lists, and their nodes are blocks that hold a value.
-- `strerror` is a parameter; thread-local storage and signals other than the event of SIGINT are
-- left out. An `int64_t` is the natural number of its bits, and its conversion to hamlib's
-- `rig_model_t` a field of the record Rig. Numbers in the source that only
-- count or index (`int`, `size_t`) are natural numbers; masks are natural numbers of which single
-- bits are tested and set.
mod Base
pub mod Configfile
pub mod Driver
pub mod Errors
pub mod External
pub mod Interface
pub mod Log
pub mod Machine
pub mod Main
pub mod Module
pub mod Runloop
pub mod TestModule
pub mod Vserial
mod Tests
