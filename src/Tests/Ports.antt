-- ===== src/Tests/Ports.antt =====
-- A search among two ports.
use mvd_edge_agent.Prelude.{◌≡◌, [], ◌∷◌, none, some, codes, arith}
use mvd_edge_agent.Numerals.{pos}
use mvd_edge_agent.Outcome.{ok}
use mvd_edge_agent.Idt85.Device.{verify_auto}
use mvd_edge_agent.Discovery.{
  Metadata, DiscoveryResult, ProbeSettings, UsbFilter, discover_reader_port,
}
use mvd_edge_agent.Discovery.Selection.{IsSearch, discover_reader_port-IsSearch}
use mvd_edge_agent.Tests.{test_host, start}

abbrev settings : ProbeSettings
settings = record {
  baudrate = 57600;
  reader_address = 0;
  read_delay = 2;
  reader_verify_method = verify_auto;
}

abbrev vendor_filter : UsbFilter
vendor_filter = record { usb_vendor_id = some 0x1A86; usb_product_id = none; usb_serial = none }

abbrev matching_port : Metadata
matching_port = record {
  port = codes "/dev/ttyUSB0";
  stable_path = none;
  description = some (codes "USB Serial");
  manufacturer = none;
  vid = some (pos 0x1A86);
  pid = some (pos 0x7523);
  serial_number = none;
}

abbrev other_port : Metadata
other_port = record matching_port { port = codes "COM1"; vid = none }

discover_reader_port-IsSearch_example :
    (result : DiscoveryResult) × ((discover_reader_port test_host settings vendor_filter
        (other_port ∷ matching_port ∷ [])
        start).0
      ≡ ok result)
    × IsSearch test_host settings vendor_filter (other_port ∷ matching_port ∷ []) start result
discover_reader_port-IsSearch_example =
    discover_reader_port-IsSearch test_host settings vendor_filter (other_port ∷ matching_port ∷ [])
      start (omega arith)
