-- ===== src/Cli/Check.antt =====
-- `check_config` of src/mvd_edge/app.py: what it prints, and its exit status.
use mvd_edge_agent.Prelude.{
  ℕ, Bool, true, false, Option, none, some, List, [], ◌∷◌, ◌++◌, Text, codes,
}
use mvd_edge_agent.Outcome.{Outcome, ok, raised, message}
use mvd_edge_agent.Numerals.{positive_of}
use mvd_edge_agent.Cloud.{decimal}
use mvd_edge_agent.Config.{EdgeConfig}
use mvd_edge_agent.Config.Values.{Floats}
use mvd_edge_agent.Cli.Format.{labelled, format_application_profile, two_digits, or_text, usb_pair}

abbrev pub version_line : Text → Text
version_line version = codes "MVD Insights Edge Agent " ++ version

-- Whether there is a key; the key itself is not printed.
abbrev pub key_word : Option Text → Text
key_word none = codes "missing"
key_word (some []) = codes "missing"
key_word (some (c ∷ key)) = codes "configured"

-- `str(b).lower()`
abbrev pub bool_word : Bool → Text
bool_word true = codes "true"
bool_word false = codes "false"

module _ (f : Floats) where
  open f use {Real, general}

  abbrev pub seconds : Real → Text
  seconds t = general t ++ codes "s"

  abbrev pub distance_line : Option Real → Text
  distance_line none = labelled (codes "Target Read Distance:") (codes "not configured")
  distance_line (some distance) =
      labelled (codes "Target Read Distance:") (general distance ++ codes " m")

  unfoldable pub config_lines : EdgeConfig Real → List Text
  config_lines config =
      labelled (codes "Application:") (format_application_profile config.application_profile)
      ∷ labelled (codes "Customer:") config.customer_id
      ∷ labelled (codes "Site:") config.site_id
      ∷ labelled (codes "Location:") config.location_id
      ∷ labelled (codes "Zone:") config.zone_id
      ∷ labelled (codes "Device:") config.device_id
      ∷ labelled (codes "Device Type:") config.device_type
      ∷ labelled (codes "Reader:") config.reader_id
      ∷ labelled (codes "Reader Address:") (codes "0x" ++ two_digits config.reader_address)
      ∷ labelled (codes "Reader Verify Method:") config.reader_verify_method
      ∷ labelled (codes "USB Vendor/Product:") (
          usb_pair (positive_of config.usb_vendor_id) (positive_of config.usb_product_id)
            (codes "not configured"))
      ∷ labelled (codes "USB Serial:") (or_text config.usb_serial (codes "not configured"))
      ∷ labelled (codes "Serial:") config.serial_port
      ∷ labelled (codes "Baud:") (decimal config.serial_baud)
      ∷ labelled (codes "API URL:") config.rfid_api_url
      ∷ labelled (codes "API Key:") (key_word config.rfid_ingest_api_key)
      ∷ labelled (codes "Scan Interval:") (seconds config.scan_interval)
      ∷ labelled (codes "Exit Timeout:") (seconds config.exit_timeout)
      ∷ labelled (codes "Serial Reconnect Interval:") (seconds config.serial_reconnect_interval)
      ∷ labelled (codes "Reader Discovery Interval:") (seconds config.reader_discovery_interval)
      ∷ labelled (codes "Auto Configure Reader:") (bool_word config.auto_configure_reader)
      ∷ labelled (codes "Heartbeat:") (codes "every " ++ seconds config.heartbeat_interval)
      ∷ labelled (codes "Heartbeat URL:") config.heartbeat_api_url
      ∷ labelled (codes "Data Directory:") config.edge_data_dir
      ∷ labelled (codes "Log Directory:") (or_text config.edge_log_dir (codes "terminal only"))
      ∷ labelled (codes "Queue Retry Interval:") (seconds config.queue_retry_interval)
      ∷ labelled (codes "Queue Batch Size:") (decimal config.queue_batch_size)
      ∷ distance_line config.target_read_distance_m
      ∷ []

  unfoldable pub check_config : Text → Outcome (EdgeConfig Real) → ℕ × List Text
  unfolding config_lines
  check_config version (raised e) = (
    1,
    version_line version
        ∷ []
        ∷ codes "Configuration:"
        ∷ codes "INVALID"
        ∷ labelled (codes "Error:") (message e)
        ∷ [],
  )
  check_config version (ok config) = (
    0,
    version_line version ∷ [] ∷ codes "Configuration:" ∷ codes "VALID" ∷ [] ∷ config_lines config,
  )
