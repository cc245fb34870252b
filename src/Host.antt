-- ===== src/Host.antt =====
-- What the agent calls outside itself, as functions on a state of the outside world: the clock, the
-- generator of event identities, the serial driver (pyserial), HTTP (requests), commands and paths.
use mvd_edge_agent.Prelude.{ℕ, Bool, Option, List, Text}
use mvd_edge_agent.Outcome.{Outcome}
use mvd_edge_agent.Numerals.{ℤ}
use mvd_edge_agent.Json.{Json}

-- An HTTP answer: its status code, its text, and what `response.json()` gives or raises.
pub record Response : Type 0 where
  pub status_code : ℕ
  pub text : Text
  pub json : Outcome Json

-- An attribute that pyserial gives for an identity: none, an integer, or a text.
pub data UsbValue : Type 0 where
  absent : UsbValue
  integer : ℤ → UsbValue
  written : Text → UsbValue

-- What the agent reads of an entry of pyserial's `comports`.
pub record PortInfo : Type 0 where
  pub device : Text
  pub stable_path : Option Text
  pub description : Option Text
  pub manufacturer : Option Text
  pub vid : UsbValue
  pub pid : UsbValue
  pub serial_number : Option Text

-- A finished command: whether its return code is 0, and its output.
pub record CompletedProcess : Type 0 where
  pub succeeded : Bool
  pub stdout : Text

-- Times are counted in ticks from the epoch. `write` stands for the three calls that send a command
-- (`reset_input_buffer`, `write`, `flush`); `read n` is `Serial.read(n)` with the port's timeout. `run` is `subprocess.run`
-- with a timeout in milliseconds; `comports` is pyserial's, and `iterdir`, `exists` and `resolve` are
-- those of a path.
pub record Host : Type 1 where
  pub World : Type 0
  pub time : World → ℕ × World
  pub sleep : ℕ → World → World
  pub timestamp : World → Text × World
  pub utc_timestamp : World → Text × World
  pub uuid4 : World → Text × World
  pub serial_open : Text → ℕ → World → Outcome (Unit {0}) × World
  pub serial_close : World → World
  pub serial_write : List ℕ → World → Outcome (Unit {0}) × World
  pub serial_read : ℕ → World → Outcome (List ℕ) × World
  pub str_of : Json → Text
  pub post : Text → List (Text × Text) → List (Text × Json) → ℕ → World → Outcome Response × World
  pub run : List Text → ℕ → World → Outcome CompletedProcess × World
  pub comports : World → List PortInfo × World
  pub iterdir : Text → World → Outcome (List Text) × World
  pub exists : Text → World → Outcome Bool × World
  pub resolve : Text → World → Outcome Text × World
