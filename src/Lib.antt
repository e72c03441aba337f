-- ===== src/Lib.antt =====
-- A standby-power monitor in two programs. The ATS-Pi companion (ats-pi-companion-main/src/atspi) reads a
-- transfer switch, commands it through the relays of an ADAM-6060 module, and serves Modbus registers;
-- GenWatch (GenWatch-main/backend/genwatch) polls a generator controller and the companion.
--
-- How the parts of the companion interact: the sampling loop reads the driver and writes the register
-- store; a Modbus request goes through the server's guard and data block to the store, and a command that
-- the store recognises goes to the driver; the connection tracker feeds the safety watchdog, which
-- releases the maintained commands, in the store and through the driver, when the commander is lost.
-- How the parts of GenWatch interact: a poller per device reads tiers of registers, keeps the health of
-- its link and calls the state machine or the link to the companion (AtsService) with the reading; the
-- commands to the generator and to the switch read those states at their gates, share one store of
-- confirm tokens, and write through the client; the link tells its own commands from others by the note
-- that a command leaves.
--
-- The companion, in ats-pi-companion-main/src/atspi:
--   Companion/IoDriver      io_driver.py: the snapshots and the protocol of the drivers, as a record of
--                           operations, with the contract of a release as a record of laws
--   Companion/Persistence   persistence.py: load and save of the state file
--   Companion/Store         state.py: Model (the state, __init__, _evict_old_transfers), Persist (the
--                           saves), Writers (apply_input_snapshot to release_maintained_commands), Modbus
--                           (read_register, can_write, write_register); proofs in Counters, Faults,
--                           Registers, Commands, Activities and
--                           Durability
--   Companion/Safety        safety.py and the ConnectionTracker of server.py, as steps of requests,
--                           disconnects and ticks; proofs in Tracker, Release and Disconnect
--   Companion/Server        server.py: validate, getValues and setValues; proofs in Server/Writes
--   Companion/Adam          io_adam.py: Debounce, Device (connection and fail-safe check), Outputs,
--                           Inputs; proofs in Debounce/Channel, FailSafe, Pulses and Inputs/Contacts
--   Companion/Hybrid        io_hybrid.py
--   Companion/Service       __main__.py: _sampling_loop and _dispatch_command over any driver; proofs in
--                           Service/Startup and Service/Faults
-- GenWatch, in GenWatch-main/backend/genwatch:
--   Genwatch/Registers      modbus/registers.py: decode_value, batch_reads and the derive functions
--   Genwatch/Validation     modbus/registers.py: the errors of validate_register_map; proofs in
--                           Validation/Words, Sound, Report and Complete
--   Genwatch/LoadSource     services/state.py: the load source and _check_loadsource_disagreement
--   Genwatch/Alarms         services/state.py: the alarms of the status bits in update; proofs in
--                           Alarms/Session and Alarms/Debounce. Clearing a row by an operator
--                           (api/events.py) is not a step of the model
--   Genwatch/Ranges         services/state.py: _check_numeric_ranges; proofs in Raised and Severity
--   Genwatch/RateLimit      services/ratelimit.py
--   Genwatch/Poller         modbus/poller.py: Health (_record, _classify, a round of _watchdog) and Tier
--                           (_poll_tier and _fallback_singles); proofs in Recovery and Freshness
--   Genwatch/Ats            services/ats.py: Model (the snapshot, authority, decoding helpers) and Update
--                           (_update with the events and alarm rows); proofs in Authority, Faults, Quiet,
--                           Comms
--   Genwatch/Tokens         services/control.py: the confirm tokens, and the steps that commands are
--                           made of (audit rows, refusals, writes); proofs in Verdict, Once, Spending
--   Genwatch/Control        services/control.py: execute; proofs in Control/Gates
--   Genwatch/AtsControl     services/ats_control.py; proofs in Gates, Release and Echo
--   Genwatch/Fuel           services/fuel.py; proofs in Status, Flapping, Drops, Burning and Reminders
--   Genwatch/Sessions       services/session.py, with the session rows of db.py and the claims of
--                           services/auth.py; proofs in Revoked, Final and Gate
--   Genwatch/Accounts       services/users.py (authenticate), services/totp.py (verify) and their rows of
--                           db.py; proofs in Lockout and Codes
--   Genwatch/Commands       the two services over one token store, as a sequence of operations; what one
--                           token starts in Starts
-- Base holds the shared helpers: tests on native numbers, lists, the bit operations as arithmetic,
-- integers, and dictionaries in the order of insertion. The Examples modules apply the theorems at
-- concrete inputs.
--
-- The state of an object is a record that its operations take and return; the locks make each
-- operation one step. Times are parameters: monotonic clocks in milliseconds, wall clocks in whole
-- seconds. Python integers that are never negative are native numbers, with the masks of the source
-- written out. There is no fuel: loops over lists are structural, and an endless loop is one step with
-- a run over a list of steps. pymodbus is outside: the driver's client is the list of the answers that
-- it will give, and the server's default validation is a parameter. The answers of GenWatch's client
-- to the reads of a poll are a list too, and a write's answer is an argument of the command. Drawn
-- tokens are a list of numbers. The state of a link is one object that the poller changes in place:
-- polls carry which object it is. The serial reader of the hybrid driver and the library that signs
-- tokens are parameters, and so are the checks of password hashes and the codes of secrets.
--
-- Not modelled: logging and texts, configuration and start-up, the sockets and the request handler of
-- the Modbus server, the bench tool, the health page, the simulated driver and the serial reader of
-- the companion; of GenWatch the client with its sockets, the endless loops of the poller, the
-- exchange of a register map at run time, the engine state and the event bus of the state machine, the
-- management of users and their passwords, the tables of the database but for sessions, accounts and
-- alarms, integrations, API and frontend.

pub mod Base
pub mod Companion
pub mod Genwatch
