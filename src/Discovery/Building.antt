-- ===== src/Discovery/Building.antt =====
-- With an address that is a byte, the readers are built and the search for one raises nothing
-- (src/mvd_edge/adapters/idt85.py, src/mvd_edge/discovery/serial.py).
use mvd_edge_agent.Prelude.Sort.{sort_by}
use mvd_edge_agent.Prelude.{ℕ, ◌≡◌, ◌≤◌, refl, ap, none, List, [], ◌∷◌, length, arith, Text, keep}
use mvd_edge_agent.Outcome.{exception_of}
use mvd_edge_agent.Host.{Host}
use mvd_edge_agent.Idt85.Crc.{IsByte}
use mvd_edge_agent.Idt85.Command.{
  make_command, inventory_command, get_reader_info_command, get_work_mode_command,
  set_work_mode_command, answer_mode_params, build_inventory_command, build_get_reader_info_command,
  build_get_work_mode_command, build_set_answer_mode_command,
}
use mvd_edge_agent.Idt85.Command.Frame.{make_command-eq_ok}
use mvd_edge_agent.Idt85.Device.{create}
use mvd_edge_agent.Discovery.{
  Metadata, ProbeSettings, UsbFilter, probe_reader_port, probe_all, discover_reader_port,
  candidate_port, rank_le, matches_usb_filter,
}

make_command_raises_not :
    (address command : ℕ) (params : List ℕ)
    → IsByte address
    → IsByte command
    → length params ≤ 251
    → exception_of (make_command address command params) ≡ none
make_command_raises_not address command params a c l =
    ap exception_of (make_command-eq_ok address command params a c l)

-- For an address that is a byte the reader is built.
pub create_raises_not :
    (port : Text) (baudrate address read_delay : ℕ) (method : Text)
    → IsByte address
    → exception_of (create port baudrate address read_delay method) ≡ none
unfolding create build_inventory_command build_get_reader_info_command build_get_work_mode_command
    build_set_answer_mode_command
create_raises_not port baudrate address read_delay method byte = ground (
  arith,
  make_command_raises_not address inventory_command [] byte (omega arith) (omega arith),
  make_command_raises_not 255 get_reader_info_command [] (omega arith) (omega arith) (omega arith),
  make_command_raises_not address get_work_mode_command [] byte (omega arith) (omega arith),
  make_command_raises_not address set_work_mode_command answer_mode_params byte (omega arith)
      (omega arith),
)

module _ (h : Host) where
  open h use {World}

  probe_raises_not :
      (s : ProbeSettings) (port : Text) (w : World)
      → IsByte s.reader_address
      → exception_of (probe_reader_port h s port w).0 ≡ none
  unfolding probe_reader_port
  probe_raises_not s port w byte = ground (
    arith,
    create_raises_not port s.baudrate s.reader_address s.read_delay s.reader_verify_method byte,
  )

  probe_all_raises_not :
      (s : ProbeSettings) (candidates : List Metadata) (w : World)
      → IsByte s.reader_address
      → exception_of (probe_all h s candidates w).0 ≡ none
  unfolding probe_all
  probe_all_raises_not s [] w byte = refl
  probe_all_raises_not s (m ∷ candidates) w byte = ground (
    arith,
    probe_raises_not s (candidate_port m) w byte,
    probe_all_raises_not s candidates (probe_reader_port h s (candidate_port m) w).1 byte,
  )

  pub discover_raises_not :
      (s : ProbeSettings) (f : UsbFilter) (ports : List Metadata) (w : World)
      → IsByte s.reader_address
      → exception_of (discover_reader_port h s f ports w).0 ≡ none
  unfolding discover_reader_port
  discover_raises_not s f ports w byte =
      ground
        (arith, probe_all_raises_not s (sort_by rank_le (keep (matches_usb_filter f) ports)) w byte)
