-- ===== src/Tests/Link.antt =====
-- Connections and scans with the simulated reader.
use mvd_edge_agent.Prelude.{
  ◌≡◌, ◌≢◌, ◌⊎◌, refl, true, false, List, [], ◌∷◌, some, All, codes, arith, ℕ, get_or, text_eq,
}
use mvd_edge_agent.Outcome.{ok}
use mvd_edge_agent.Idt85.Device.{Idt85Reader, verify_auto}
use mvd_edge_agent.Idt85.Inventory.{InventoryResult, valid}
use mvd_edge_agent.Health.{ready}
use mvd_edge_agent.Reader.{
  open_port, inventory, verify_reader, get_reader_info, get_work_mode, send_command, read_rest,
}
use mvd_edge_agent.Idt85.Command.{is_valid_command_response, parse_work_mode_response}
use mvd_edge_agent.Connect.{connect_and_verify_reader, connect_opened, settle, negotiate, accept}
use mvd_edge_agent.Connect.Port.{HoldsPort, connect_and_verify_reader-HoldsPort}
use mvd_edge_agent.Connect.Mode.{
  HasJustAnswered, connect_and_verify_reader-Keeps, connect_and_verify_reader-HasJustAnswered,
}
use mvd_edge_agent.Presence as Presence
use mvd_edge_agent.Health as Health
use mvd_edge_agent.Scan.{ScanState, read_inventory_events}
use mvd_edge_agent.Scan.Reports.{
  Agrees, IsUpdated, IsUneventful, read_inventory_events-Agrees, read_inventory_events_cases,
}
use mvd_edge_agent.Tests.{TestWorld, test_host, start}

abbrev pub test_reader : Idt85Reader
test_reader = record {
  port = codes "COM3";
  baudrate = 57600;
  address = 0;
  read_delay = 2;
  verify_method = verify_auto;
  is_open = false;
  inventory_bytes = 4 ∷ 0 ∷ 0x01 ∷ 0xDB ∷ 0x4B ∷ [];
  reader_info_bytes = 4 ∷ 0xFF ∷ 0x21 ∷ 0x19 ∷ 0x95 ∷ [];
  get_work_mode_bytes = 4 ∷ 0 ∷ 0x36 ∷ 0 ∷ 0 ∷ [];
  set_answer_mode_bytes = 10 ∷ 0 ∷ 0x35 ∷ 0 ∷ 0 ∷ 5 ∷ 0 ∷ 1 ∷ 0 ∷ 0 ∷ 0 ∷ [];
}

connect_and_verify_reader-HoldsPort_example :
    HoldsPort (connect_and_verify_reader test_host test_reader true start).0
connect_and_verify_reader-HoldsPort_example =
    connect_and_verify_reader-HoldsPort test_host test_reader true start

-- No command that sets the work mode was written.
abbrev SetsNoMode : TestWorld → Type 0
SetsNoMode w = All (λ command. get_or command 2 0 ≢ 0x35) w.written

query-SetsNoMode :
    (code : ℕ) (command : List ℕ)
    → get_or command 2 0 ≡ code
    → code ≢ 0x35
    → (w : TestWorld) → SetsNoMode w
    → SetsNoMode (test_host.serial_write command w).1
query-SetsNoMode code command same differs w kept = ground (arith, same, differs)

connect_and_verify_reader-Keeps_example :
    SetsNoMode (connect_and_verify_reader test_host test_reader false start).1
connect_and_verify_reader-Keeps_example =
    connect_and_verify_reader-Keeps test_host SetsNoMode (λ duration w kept. kept)
      (λ size w kept. kept) (λ port baudrate w kept. kept) (λ w kept. kept) test_reader start
      (query-SetsNoMode 0x21 test_reader.reader_info_bytes refl (omega arith))
      (query-SetsNoMode 0x36 test_reader.get_work_mode_bytes refl (omega arith)) tt

test_reader-ready : (connect_and_verify_reader test_host test_reader true start).0.state ≡ ready
unfolding connect_and_verify_reader connect_opened settle negotiate accept open_port verify_reader
    get_reader_info get_work_mode send_command read_rest is_valid_command_response
    parse_work_mode_response text_eq
test_reader-ready = refl

connect_and_verify_reader-HasJustAnswered_example :
    (r : Idt85Reader) × ((open_port test_host test_reader start).0 ≡ ok r)
    × HasJustAnswered test_host r (connect_and_verify_reader test_host test_reader true start).1
connect_and_verify_reader-HasJustAnswered_example =
    connect_and_verify_reader-HasJustAnswered test_host test_reader true start test_reader-ready

abbrev scan_state : ScanState
scan_state = record {
  reader = record test_reader { is_open = true };
  presence = Presence.create 5;
  health = some (Health.create ready);
}

read_inventory_events-Agrees_example :
    Agrees test_host (read_inventory_events test_host scan_state (some (codes "door")) start).0
read_inventory_events-Agrees_example =
    read_inventory_events-Agrees test_host scan_state (some (codes "door")) start

read_inventory_events_cases_example :
    ((result : InventoryResult) × ((inventory test_host scan_state.reader
          (test_host.time start).1).0
        ≡ ok result)
      × (result.status ≡ valid)
      × IsUpdated test_host scan_state
          (some (codes "door"))
          result
          (read_inventory_events test_host scan_state (some (codes "door")) start).0)
    ⊎ (((result : InventoryResult)
          → (inventory test_host scan_state.reader (test_host.time start).1).0 ≡ ok result
          → result.status ≢ valid)
        × IsUneventful test_host scan_state
            (read_inventory_events test_host scan_state (some (codes "door")) start).0)
read_inventory_events_cases_example =
    read_inventory_events_cases test_host scan_state (some (codes "door")) start
