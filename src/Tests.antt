-- ===== src/Tests.antt =====
-- An outside world for the tests: a clock that ticks at each reading, a simulated reader that answers
-- every command, and a cloud with one answer.
mod Link
mod Frames
mod Presences
mod Queues
mod Agent
mod Ports
mod Loop
mod Networks
mod Configs
mod Commands
mod Drained
mod Bench
mod Arrivals
use mvd_edge_agent.Prelude.{
  ℕ, ◌+◌, ◌==◌, true, List, [], ◌∷◌, Option, none, some, Text, text_eq, codes, get_or, take, drop,
  if◌then◌else◌,
}
use mvd_edge_agent.Outcome.{Outcome, ok, raised, other_error, request_error}
use mvd_edge_agent.Json.{Json, string, object, field, end}
use mvd_edge_agent.Host.{Host, Response, CompletedProcess, PortInfo, integer, written}
use mvd_edge_agent.Numerals.{pos}
use mvd_edge_agent.Payload.{EventPayload}
use mvd_edge_agent.Presence.{enter}
use mvd_edge_agent.Idt85.Inventory.Responses.{inventory_frame}

pub record TestWorld : Type 0 where
  pub clock : ℕ
  pub input : List ℕ
  pub written : List (List ℕ)
  pub is_unplugged : Option Text
  pub answer : Outcome Response

abbrev pub stored_answer : Outcome Response
stored_answer = ok (record {
  status_code = 201;
  text = [];
  json = ok (object (field (codes "status") (string (codes "stored")) end));
})

abbrev pub timeout_answer : Outcome Response
timeout_answer = raised (request_error (codes "timed out"))

abbrev pub start : TestWorld
start = record { clock = 0; input = []; written = []; is_unplugged = none; answer = stored_answer }

abbrev tag_bytes : List ℕ
tag_bytes = 0xE2 ∷ 0x01 ∷ []

-- What the simulated reader answers to a command.
abbrev reply : List ℕ → List ℕ
reply command =
    if get_or command 2 0 == 1
    then inventory_frame 0 1 (tag_bytes ∷ []) 0 0
    else 6 ∷ 0 ∷ get_or command 2 0 ∷ 0 ∷ 0 ∷ 0 ∷ 0 ∷ []

abbrev tick : TestWorld → TestWorld
tick w = record w { clock = w.clock + 1 }

abbrev write : List ℕ → TestWorld → Outcome (Unit {0}) × TestWorld
write command w = elim w.is_unplugged [
  | none ↦ (ok tt, record w { input = reply command; written = command ∷ w.written })
  | some why ↦ (raised (other_error why), w)
]

-- What the commands of the network telemetry print.
abbrev command_output : List Text → Text
command_output [] = []
command_output (program ∷ arguments) =
    if text_eq program (codes "ip")
    then codes "default via 10.0.0.1 dev eth0"
    else codes "eth0:ethernet:connected:Wired"

-- A port, and a link to it.
abbrev pub by_id_path : Text
by_id_path = codes "/dev/serial/by-id/usb-reader"

abbrev pub port_info : PortInfo
port_info = record {
  device = codes "/dev/ttyUSB0";
  stable_path = none;
  description = some (codes "USB Serial");
  manufacturer = none;
  vid = written (codes " 1a86 ");
  pid = integer (pos 0x7523);
  serial_number = none;
}

abbrev pub test_host : Host
test_host = record {
  World = TestWorld;
  time = λ w. (w.clock, tick w);
  sleep = λ duration w. record w { clock = w.clock + duration };
  timestamp = λ w. ((48 + w.clock) ∷ [], tick w);
  utc_timestamp = λ w. ((48 + w.clock) ∷ [], tick w);
  uuid4 = λ w. ((97 + w.clock) ∷ [], tick w);
  serial_open = λ port baudrate w. (ok tt, w);
  serial_close = λ w. record w { input = [] };
  serial_write = write;
  serial_read = λ size w. (ok (take size w.input), record w { input = drop size w.input });
  str_of = λ json. [];
  run = λ command timeout w. (ok (record { succeeded = true; stdout = command_output command }), w);
  post = λ url headers body timeout w. (w.answer, w);
  comports = λ w. (port_info ∷ [], w);
  iterdir = λ path w. (ok (by_id_path ∷ []), w);
  exists = λ path w. (ok true, w);
  resolve = λ path w. (ok (codes "/dev/ttyUSB0"), w);
}
