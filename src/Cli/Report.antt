-- ===== src/Cli/Report.antt =====
-- What the loop prints of a search and of a reader that is not there (src/mvd_edge/app.py).
use mvd_edge_agent.Prelude.{Bool, true, false, Option, none, some, List, [], ◌∷◌, ◌++◌, Text, codes}
use mvd_edge_agent.Discovery.{DiscoveredSerialDevice, DiscoveryResult}
use mvd_edge_agent.Config.Values.{Floats}
use mvd_edge_agent.Cli.Format.{labelled, or_text, usb_pair}

abbrev pub verification_word : Bool → Text
verification_word true = codes "passed"
verification_word false = codes "failed"

abbrev pub error_lines : Option Text → List Text
error_lines none = []
error_lines (some []) = []
error_lines (some (c ∷ t)) = labelled (codes "  Verification error:") (c ∷ t) ∷ []

-- The lines of one candidate.
abbrev pub candidate_lines : DiscoveredSerialDevice → List Text
candidate_lines device =
    (labelled (codes "Discovery candidate:") device.port
      ∷ labelled (codes "  VID/PID:") (usb_pair device.vid device.pid (codes "unknown"))
      ∷ labelled (codes "  USB serial:") (or_text device.serial_number (codes "unknown"))
      ∷ labelled (codes "  Stable path:") (or_text device.stable_path (codes "not available"))
      ∷ labelled (codes "  Reader verification:") (verification_word device.reader_verified)
      ∷ [])
    ++ error_lines device.error

abbrev pub all_candidate_lines : List DiscoveredSerialDevice → List Text
all_candidate_lines [] = []
all_candidate_lines (device ∷ devices) = candidate_lines device ++ all_candidate_lines devices

abbrev pub result_line : DiscoveryResult → Text
result_line result = labelled (codes "Discovery result:") result.message

-- `log_discovery_result`, on the devices of the result.
abbrev pub log_discovery : List DiscoveredSerialDevice → DiscoveryResult → List Text
log_discovery [] result = codes "Discovery candidates: none" ∷ result_line result ∷ []
log_discovery (device ∷ devices) result =
    all_candidate_lines (device ∷ devices) ++ result_line result ∷ []

unfoldable pub log_discovery_result : DiscoveryResult → List Text
log_discovery_result result = log_discovery result.devices result

unfoldable pub report_reader_unavailable : (f : Floats) → Text → Text → f.Real → List Text
report_reader_unavailable f message port reconnect_interval =
    codes "READER UNAVAILABLE"
    ∷ labelled (codes "Port:") port
    ∷ message
    ∷ (codes "Retry in " ++ (f.general reconnect_interval ++ codes "s"))
    ∷ []
