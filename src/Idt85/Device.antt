-- ===== src/Idt85/Device.antt =====
-- The reader object, `IDT85Reader.__init__` of src/mvd_edge/adapters/idt85.py.
use mvd_edge_agent.Prelude.{ℕ, Bool, false, ◌||◌, List, Text, codes, text_eq, upper}
use mvd_edge_agent.Outcome.{Outcome, ok, ◌>>=◌}
use mvd_edge_agent.Idt85.Command.{
  build_inventory_command, build_get_reader_info_command, build_get_work_mode_command,
  build_set_answer_mode_command,
}

abbrev pub verify_auto : Text
verify_auto = codes "AUTO"

abbrev pub verify_reader_info : Text
verify_reader_info = codes "READER_INFO"

abbrev pub verify_work_mode : Text
verify_work_mode = codes "WORK_MODE"

-- `method in SUPPORTED_VERIFY_METHODS`
abbrev pub is_supported_method : Text → Bool
is_supported_method method =
    text_eq method verify_auto
    || text_eq method verify_reader_info
    || text_eq method verify_work_mode

-- `is_open` says whether `_serial` holds a port. The read delay is in ticks.
pub record Idt85Reader : Type 0 where
  pub port : Text
  pub baudrate : ℕ
  pub address : ℕ
  pub read_delay : ℕ
  pub verify_method : Text
  pub is_open : Bool
  pub inventory_bytes : List ℕ
  pub reader_info_bytes : List ℕ
  pub get_work_mode_bytes : List ℕ
  pub set_answer_mode_bytes : List ℕ

-- `__init__`: the commands are built once; the reader information goes to the broadcast address.
unfoldable pub create : Text → ℕ → ℕ → ℕ → Text → Outcome Idt85Reader
create port baudrate address read_delay verify_method = do
  inventory_bytes ← build_inventory_command address
  reader_info_bytes ← build_get_reader_info_command 0xFF
  get_work_mode_bytes ← build_get_work_mode_command address
  set_answer_mode_bytes ← build_set_answer_mode_command address
  ok (record {
    port = port;
    baudrate = baudrate;
    address = address;
    read_delay = read_delay;
    verify_method = upper verify_method;
    is_open = false;
    inventory_bytes = inventory_bytes;
    reader_info_bytes = reader_info_bytes;
    get_work_mode_bytes = get_work_mode_bytes;
    set_answer_mode_bytes = set_answer_mode_bytes;
  })
