-- ===== src/Lib.antt =====
-- Verification of the edge agent: an RFID reader on a serial port is scanned, the tags that come and
-- go become events, the events wait in a durable queue, and a round of deliveries posts them to the
-- cloud. A loop connects to the reader, scans, delivers and sends heartbeats until it is told to stop.
--
-- The parts, from the line to the cloud:
--   Idt85     src/mvd_edge/adapters/idt85.py: the checksum (Crc), the commands and the answers to
--             them (Command), the inventory frames (Inventory), the reader object (Device)
--   Reader    the methods of `IDT85Reader` there that use the serial port
--   Connect   `connect_and_verify_reader` of src/mvd_edge/app.py
--   Scan      `read_inventory_events` of src/mvd_edge/app.py
--   Discovery src/mvd_edge/discovery/serial.py: the ports and their metadata (Ports), the search for
--             the reader's port
--   Presence  src/mvd_edge/event_engine/state.py: which tags are in the field
--   Payload   the dictionary of `build_event_payload` of src/mvd_edge/app.py
--   Queue     src/mvd_edge/storage/queue.py: the table of events; the map from identities to events that
--             it stands for (Specification)
--   Health    src/mvd_edge/health/state.py
--   Cloud     src/mvd_edge/transport/cloud.py
--   Delivery  `build_event_payload`, `process_pending_deliveries` and `attempt_immediate_delivery` of
--             src/mvd_edge/app.py
--   Network   src/mvd_edge/health/network.py: what the commands print (Output), the primary
--             connection (Devices), the telemetry (Record)
--   Heartbeat `HealthState.payload`, `NetworkTelemetry.payload`, and `build_heartbeat_payload` and
--             `send_heartbeat` of src/mvd_edge/app.py
--   Config    src/mvd_edge/config.py: `EdgeConfig`, the parsing of the values (Values), `from_env`
--             (Environment), the search for the file (File)
--   Agent     `run_agent` of src/mvd_edge/app.py: the attempt to connect (Link) and the scan
--             (Scanning) of a round, `interruptible_sleep` (Sleep), the rounds and what stands before
--             and after them; runs one after the other on the same file (Restarts)
--   Cli       src/mvd_edge/app.py: `main`, `print_version` and `ShutdownController`, `check_config`
--             (Check), `log_discovery_result` and `report_reader_unavailable` (Report), how they write
--             numbers and names (Format)
--   Version   src/mvd_edge/__init__.py: the version, from pyproject.toml or the installed package
--   Scripts   the scripts of tools/ and the four inventory scripts of legacy/, a module each, on a
--             terminal and a serial port
--   Numerals  Python's `int(text, base)`
--   Prelude, Outcome, Io, Json, Host, Dict   what the parts share: tests, lists, texts and sorting,
--             exceptions, actions on the outside world, JSON values, the outside world, dictionaries
--   Tests     a simulated reader and cloud, and the theorems applied to them
--
-- A scan reads an inventory, gives its tags to `Presence.update`, and reports to the health state. The
-- events become payloads in the queue; a round fetches the oldest pending ones, and for each writes the
-- new send time, posts it, counts the attempt and, on success, marks it as delivered. The variables of
-- the loop are the record `AgentState`; `round` is one turn of the `while`, made of the attempt to
-- connect, the scan, the events, the deliveries, the heartbeat and the sleep in their order, and
-- `rounds` repeats it as often as its first argument says, or until shutdown is requested or an
-- exception ends it, so that a theorem on all such numbers is one on the loop. Each function of
-- the source is a function of the same name, or of the one that the comment above it gives; a loop or a
-- long branch of it is a function of its own.
--
-- How the code is modelled:
--   * What is not code of the repository is a parameter, the record `Host`: the clocks, `uuid4`,
--     pyserial, `requests.post`, `subprocess.run`, the calls on paths and Python's `str` of a JSON
--     value, each a function on a state of the outside world; and, for the loop, `Platform`: the request
--     of a shutdown, the version, and the reader's read delay and the polling interval in ticks.
--     Nothing is assumed of them, but where a theorem names it. Closing a port raises nothing in the
--     model.
--   * Mutable objects are records that are passed on; an exception is a value of `Outcome`, and each
--     `try` decides on it as the source does.
--   * Text is a list of code points. `upper` and `lower` are those of ASCII, and so are the digits of
--     a number; `strip`, `split` and `splitlines` know the white space and line breaks of Unicode. A path
--     is its text.
--   * A time of `time.time()` is a count of ticks, and a difference that is compared with a time-out is
--     written as a sum. Times as text are opaque and compared as text. The configuration is read with
--     Python's `float` as a parameter (`Floats`); the loop runs on one whose numbers are ticks, and `main`
--     is given how many ticks a number is. What it prints is in the numbers of `Floats`.
--   * The address, the rate and the batch size of a configuration are natural numbers, which the checks
--     of `from_env` see to. Python's limit on the number of digits of an `int` is left out.
--   * A byte string is a list of numbers; the reader's answers may hold any numbers, and a theorem that
--     needs bytes below 256 says so. The checksum's shifts and masks are divisions and remainders, its
--     exclusive or is that of the library.
--   * A JSON text, stored or sent, is represented by the value that it denotes; a number is a natural
--     number.
--   * The SQLite table is its rows in the order of insertion and the last number drawn for one; each
--     method is the change that its statement makes; an insertion that is ignored uses up a number. What
--     making the directory and opening the file comes to, an exception or the table that the file holds,
--     is an argument of `main` (`open_queue`, `run_agent_on_file`); `run_agent` begins on the opened
--     queue. SQLite's errors once the file is open, and the closing of it, are not modelled.
--   * What a program prints is a list of lines; a script runs on a `Terminal`, the outside world with the
--     lines printed so far. The pauses and time-outs of a script are a parameter in ticks, and settings
--     of the port other than its path and rate are left out. `main` has the flags that argparse reads as
--     a record, and the parts of pyproject.toml and of the environment that are read are arguments.
--   * What `nmcli` writes for a value is a function that the theorem on its lines is given, with what
--     its documentation says of it.
--   * Loops are recursion on the list or the count that they run over. `decimal` runs on as many rounds
--     as its number and one more, which is more than it has digits; `interruptible_sleep` on one round
--     more than it lasts ticks, since each round sleeps at least one tick of what is left.
--
-- Not modelled: what the loop of the agent prints and logs, which is taken not to raise;
-- KeyboardInterrupt, the installation of the signal handlers and argparse; exceptions of pyserial's
-- `comports`, of SQLite once the file is open, and of building paths; legacy/test_serial.py, which opens and closes a port,
-- legacy/read_tag.py, which calls a third-party library, continuous_reader.py and setup.py.
pub mod Numerals
pub mod Prelude
pub mod Outcome
pub mod Idt85
pub mod Json
pub mod Host
pub mod Dict
pub mod Presence
pub mod Payload
pub mod Queue
pub mod Health
pub mod Cloud
pub mod Delivery
pub mod Io
pub mod Reader
pub mod Connect
pub mod Scan
pub mod Discovery
pub mod Network
pub mod Cli
pub mod Scripts
pub mod Version
pub mod Config
pub mod Heartbeat
pub mod Agent
pub mod Tests
