-- ===== src/Scripts/ProbeReader.antt =====
-- tools/probe_reader.py: the ports are searched for a reader, and the result printed.
use mvd_edge_agent.Prelude.{
  ℕ, Bool, true, false, Option, none, some, List, [], ◌∷◌, ◌++◌, Text, codes, upper,
}
use mvd_edge_agent.Numerals.{ℤ, positive_of}
use mvd_edge_agent.Outcome.{Outcome, ok, raised, other_error}
use mvd_edge_agent.Io.{Io, ◌>>=◌, ◌>>◌}
use mvd_edge_agent.Host.{Host}
use mvd_edge_agent.Cloud.{decimal}
use mvd_edge_agent.Config.Values.{optional_usb_id}
use mvd_edge_agent.Discovery.{
  DiscoveredSerialDevice, DiscoveryResult, UsbFilter, discover_reader_port,
}
use mvd_edge_agent.Discovery.Ports.{collect_metadata}
use mvd_edge_agent.Cli.Format.{labelled, or_text, four_digits, usb_pair}
use mvd_edge_agent.Scripts.{Terminal, print_all, lifted, silently}

abbrev pub format_hex : Option ℤ → Text
format_hex none = codes "n/a"
format_hex (some value) = codes "0x" ++ upper (four_digits value)

abbrev pub error_lines : Option Text → List Text
error_lines none = []
error_lines (some []) = []
error_lines (some (c ∷ t)) = labelled (codes "Error:") (c ∷ t) ∷ []

abbrev pub verdict_lines : Bool → Option Text → List Text
verdict_lines true error = codes "IDT-85 compatible reader detected" ∷ []
verdict_lines false error = codes "No supported reader response" ∷ error_lines error

abbrev pub device_lines : DiscoveredSerialDevice → List Text
device_lines device =
    (device.port
      ∷ labelled (codes "Description:") (or_text device.description (codes "n/a"))
      ∷ labelled (codes "Manufacturer:") (or_text device.manufacturer (codes "n/a"))
      ∷ labelled (codes "VID:") (format_hex device.vid)
      ∷ labelled (codes "PID:") (format_hex device.pid)
      ∷ labelled (codes "Serial Number:") (or_text device.serial_number (codes "n/a"))
      ∷ labelled (codes "Stable Path:") (or_text device.stable_path (codes "n/a"))
      ∷ [])
    ++ (verdict_lines device.reader_verified device.error ++ [] ∷ [])

abbrev pub all_device_lines : List DiscoveredSerialDevice → List Text
all_device_lines [] = []
all_device_lines (device ∷ devices) = device_lines device ++ all_device_lines devices

-- The last line.
abbrev pub choice_line : Option Text → Text → Text
choice_line none message = message
choice_line (some []) message = message
choice_line (some (c ∷ port)) message = labelled (codes "Selected:") (c ∷ port)

abbrev pub result_lines : List DiscoveredSerialDevice → DiscoveryResult → List Text
result_lines [] result = codes "No serial ports reported by pyserial." ∷ []
result_lines (device ∷ devices) result =
    all_device_lines (device ∷ devices) ++ choice_line result.selected_port result.message ∷ []

abbrev pub pair_lines : Option ℕ → Option ℕ → List Text
pair_lines none product = []
pair_lines (some vendor) none = []
pair_lines (some vendor) (some product) =
    labelled (codes "USB VID/PID:")
      (usb_pair (positive_of (some vendor)) (positive_of (some product)) [])
    ∷ []

abbrev pub serial_lines : Option Text → List Text
serial_lines none = []
serial_lines (some []) = []
serial_lines (some (c ∷ t)) = labelled (codes "USB Serial:") (c ∷ t) ∷ []

-- `parser.error`, which ends the program.
abbrev pub go_together : Option ℕ → Option ℕ → Outcome (Unit {0})
go_together none none = ok tt
go_together (some vendor) (some product) = ok tt
go_together _ _ =
    raised (other_error (codes "--usb-vendor-id and --usb-product-id must be provided together"))

module _ (h : Host) (read_delay : ℕ) where
  open h use {World}

  abbrev pub search_all : ℕ → UsbFilter → Io World DiscoveryResult
  search_all baud filter = do
    ports ← collect_metadata h
    discover_reader_port h
        (record {
          baudrate = baud;
          reader_address = 0x00;
          read_delay = read_delay;
          reader_verify_method = codes "AUTO";
        })
        filter ports

  -- `main`, with the arguments.
  unfoldable pub probe_reader :
      ℕ → Option Text → Option Text → Option Text → Io (Terminal World) (Unit {0})
  probe_reader baud vendor product serial = do
    usb_vendor_id ← lifted (optional_usb_id (codes "USB_VENDOR_ID") vendor)
    usb_product_id ← lifted (optional_usb_id (codes "USB_PRODUCT_ID") product)
    lifted (go_together usb_vendor_id usb_product_id)
    print_all (
        (codes "Scanning serial ports..." ∷ labelled (codes "Baud:") (decimal baud) ∷ [])
        ++ (pair_lines usb_vendor_id usb_product_id ++ (serial_lines serial ++ [] ∷ [])))
    result ← silently (
        search_all baud (record {
          usb_vendor_id = usb_vendor_id;
          usb_product_id = usb_product_id;
          usb_serial = serial;
        }))
    print_all (result_lines result.devices result)
