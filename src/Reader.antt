-- ===== src/Reader.antt =====
-- The driver of the reader, the methods of `IDT85Reader` of src/mvd_edge/adapters/idt85.py.
pub mod Exchange
use mvd_edge_agent.Prelude.{
  ℕ, Bool, true, false, not, ◌||◌, Option, none, some, List, [], ◌∷◌, ◌++◌, if◌then◌else◌, Text,
  codes, text_eq,
}
use mvd_edge_agent.Outcome.{Outcome, ok, raised, runtime_error, value_error}
use mvd_edge_agent.Io.{Io, pure, raise, ◌>>=◌, ◌>>◌}
use mvd_edge_agent.Host.{Host}
use mvd_edge_agent.Idt85.Command.{
  get_reader_info_command, get_work_mode_command, set_work_mode_command, is_valid_command_response,
  parse_work_mode_response,
}
use mvd_edge_agent.Idt85.Inventory.{InventoryResult, classify_inventory_response}
use mvd_edge_agent.Idt85.Device.{
  Idt85Reader, verify_auto, verify_reader_info, verify_work_mode, is_supported_method,
}

module _ (h : Host) where
  open h use {World, sleep, serial_open, serial_close, serial_write, serial_read}

  abbrev wait : ℕ → Io World (Unit {0})
  wait duration w = (ok tt, sleep duration w)

  unfoldable pub open_port : Idt85Reader → Io World Idt85Reader
  open_port reader = do
    serial_open reader.port reader.baudrate
    pure (record reader { is_open = true })

  unfoldable pub close_port : Idt85Reader → World → Idt85Reader × World
  close_port reader w =
      if reader.is_open then (record reader { is_open = false }, serial_close w) else (reader, w)

  -- What follows the first byte of an answer, which counts the bytes behind it.
  unfoldable pub read_rest : List ℕ → Io World (List ℕ)
  read_rest [] = pure []
  read_rest (count ∷ others) = do rest ← serial_read count; pure ((count ∷ others) ++ rest)

  -- `_send_command`
  unfoldable pub send_command : Idt85Reader → List ℕ → Io World (List ℕ)
  unfolding read_rest
  send_command reader command =
      if not reader.is_open
      then raise (runtime_error (codes "Serial port is not open"))
      else do serial_write command; wait reader.read_delay; first ← serial_read 1; read_rest first

  unfoldable pub get_reader_info : Idt85Reader → Io World (List ℕ)
  get_reader_info reader = send_command reader reader.reader_info_bytes

  -- The last test of `verify_reader`.
  unfoldable pub verify_by_work_mode : Idt85Reader → Io World Bool
  verify_by_work_mode reader =
      if text_eq reader.verify_method verify_auto || text_eq reader.verify_method verify_work_mode
      then (do
        response ← send_command reader reader.get_work_mode_bytes
        pure (is_valid_command_response response get_work_mode_command))
      else pure false

  unfoldable pub verify_reader : Idt85Reader → Io World Bool
  unfolding get_reader_info verify_by_work_mode
  verify_reader reader =
      if not (is_supported_method reader.verify_method)
      then raise (value_error (codes "Unsupported reader verify method: " ++ reader.verify_method))
      else if text_eq reader.verify_method verify_auto
          || text_eq reader.verify_method verify_reader_info
      then (do
        response ← get_reader_info reader
        if is_valid_command_response response get_reader_info_command
            then pure true
            else if text_eq reader.verify_method verify_reader_info
            then pure false
            else verify_by_work_mode reader)
      else verify_by_work_mode reader

  unfoldable pub get_work_mode : Idt85Reader → Io World (Option ℕ)
  get_work_mode reader = do
    response ← send_command reader reader.get_work_mode_bytes
    pure (parse_work_mode_response response)

  unfoldable pub set_answer_mode : Idt85Reader → Io World Bool
  set_answer_mode reader = do
    response ← send_command reader reader.set_answer_mode_bytes
    pure (is_valid_command_response response set_work_mode_command)

  unfoldable pub inventory : Idt85Reader → Io World InventoryResult
  inventory reader = do
    response ← send_command reader reader.inventory_bytes
    pure (classify_inventory_response response)
