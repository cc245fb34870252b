-- ===== src/Config/Environment.antt =====
-- `EdgeConfig.from_env` of src/mvd_edge/config.py, on the values of the file that was selected.
use mvd_edge_agent.Prelude.{
  ℕ, Bool, true, false, not, ◌&&◌, Option, none, some, [], ◌∷◌, Text, codes, if◌then◌else◌,
}
use mvd_edge_agent.Dict.{Dict, lookup, is_some}
use mvd_edge_agent.Outcome.{Outcome, ok, raised, ◌>>=◌, value_error}
use mvd_edge_agent.Config.{EdgeConfig}
use mvd_edge_agent.Numerals.{ℤ, to_nat}
use mvd_edge_agent.Config.Values.{
  Floats, required_string, parse_int, parse_float, parse_bool, parse_reader_address,
  parse_verify_method, optional_usb_id, optional_string, optional_positive_float,
  default_heartbeat_url, unless_empty,
}

-- `dotenv_values` of the file, whether the file is there, `os.environ` once the file is loaded, and
-- the text of the default data directory. A value without an equals sign in the file is none.
pub record Environment : Type 0 where
  pub file_values : Dict (Option Text)
  pub file_exists : Bool
  pub environ : Dict Text
  pub default_data_dir : Text

abbrev pub or_default : Option Text → Option Text → Option Text
or_default none default = default
or_default (some value) default = some value

-- The name is not in the file.
abbrev pub outside_file : Environment → Text → Option Text → Bool → Option Text
outside_file env name default allow_process_env =
    if env.file_exists && not allow_process_env
    then default
    else or_default (lookup name env.environ) default

unfoldable pub get_env : Environment → Text → Option Text → Bool → Option Text
get_env env name default allow_process_env = elim (lookup name env.file_values) [
  | some value ↦ value
  | none ↦ outside_file env name default allow_process_env
]

-- A value without a default, and one with a default.
abbrev pub value_of : Environment → Text → Option Text
value_of env name = get_env env name none false

abbrev pub value_or : Environment → Text → Text → Option Text
value_or env name default = get_env env name (some default) false

-- `get_env(…) or default`
abbrev pub text_unless_empty : Option Text → Text → Text
text_unless_empty none default = default
text_unless_empty (some []) default = default
text_unless_empty (some (c ∷ t)) default = c ∷ t

-- The two identities, which go together.
unfoldable pub usb_ids : Environment → Outcome (Option ℕ × Option ℕ)
usb_ids env = do
  vendor ← optional_usb_id (codes "USB_VENDOR_ID") (value_of env (codes "USB_VENDOR_ID"))
  product ← optional_usb_id (codes "USB_PRODUCT_ID") (value_of env (codes "USB_PRODUCT_ID"))
  elim (is_some vendor) [
    | true ↦ elim (is_some product) [
      | true ↦ ok (vendor, product)
      | false ↦
          raised
            (value_error (codes "USB_VENDOR_ID and USB_PRODUCT_ID must be configured together"))
    ]
    | false ↦ elim (is_some product) [
      | true ↦
          raised
            (value_error (codes "USB_VENDOR_ID and USB_PRODUCT_ID must be configured together"))
      | false ↦ ok (vendor, product)
    ]
  ]

-- A required value without a default, and one with a default.
abbrev pub required : Environment → Text → Outcome Text
required env name = required_string name (value_of env name)

abbrev pub required_or : Environment → Text → Text → Outcome Text
required_or env name default = required_string name (value_or env name default)

module _ (f : Floats) where
  open f use {Real, zero_point, text_of}

  -- A number above 0.
  abbrev pub interval_of : Environment → Text → Text → Outcome Real
  interval_of env name default =
      parse_float f name (value_or env name default) (some zero_point) true

  abbrev pub count_of : Environment → Text → Text → Outcome ℤ
  count_of env name default = parse_int name (value_or env name default) (some 1)

  unfoldable pub from_env : Environment → Outcome (EdgeConfig Real)
  from_env env = do
    rfid_api_url ← required env (codes "RFID_API_URL")
    serial_reconnect_interval ← interval_of env (codes "SERIAL_RECONNECT_INTERVAL") (codes "5")
    ids ← usb_ids env
    application_profile ←
        required_or env (codes "APPLICATION_PROFILE") (codes "RFID_ASSET_TRACKING")
    customer_id ← required env (codes "CUSTOMER_ID")
    site_id ← required env (codes "SITE_ID")
    location_id ← required env (codes "LOCATION_ID")
    zone_id ← required env (codes "ZONE_ID")
    device_id ← required env (codes "DEVICE_ID")
    device_type ← required_or env (codes "DEVICE_TYPE") (codes "IDT85")
    reader_id ← required env (codes "READER_ID")
    reader_address ←
        parse_reader_address (codes "READER_ADDRESS")
          (value_or env (codes "READER_ADDRESS") (codes "0x00"))
    reader_verify_method ←
        parse_verify_method (codes "READER_VERIFY_METHOD")
          (value_or env (codes "READER_VERIFY_METHOD") (codes "AUTO"))
    serial_port ← required_or env (codes "SERIAL_PORT") (codes "AUTO")
    serial_baud ← count_of env (codes "SERIAL_BAUD") (codes "57600")
    rfid_ingest_api_key ← required env (codes "RFID_INGEST_API_KEY")
    scan_interval ← interval_of env (codes "SCAN_INTERVAL") (codes "0.5")
    exit_timeout ← interval_of env (codes "EXIT_TIMEOUT") (codes "3.0")
    queue_retry_interval ← interval_of env (codes "QUEUE_RETRY_INTERVAL") (codes "5")
    queue_batch_size ← count_of env (codes "QUEUE_BATCH_SIZE") (codes "20")
    reader_discovery_interval ←
        interval_of env (codes "READER_DISCOVERY_INTERVAL") (text_of serial_reconnect_interval)
    auto_configure_reader ←
        parse_bool (codes "AUTO_CONFIGURE_READER")
          (value_or env (codes "AUTO_CONFIGURE_READER") (codes "false"))
    heartbeat_interval ← interval_of env (codes "HEARTBEAT_INTERVAL") (codes "30")
    target_read_distance_m ←
        optional_positive_float f (codes "TARGET_READ_DISTANCE_M")
          (value_of env (codes "TARGET_READ_DISTANCE_M"))
    ok (record {
      application_profile = application_profile;
      customer_id = customer_id;
      site_id = site_id;
      location_id = location_id;
      zone_id = zone_id;
      device_id = device_id;
      device_type = device_type;
      reader_id = reader_id;
      reader_address = reader_address;
      reader_verify_method = reader_verify_method;
      usb_vendor_id = ids.0;
      usb_product_id = ids.1;
      usb_serial = optional_string (value_of env (codes "USB_SERIAL"));
      serial_port = serial_port;
      serial_baud = to_nat serial_baud;
      rfid_api_url = rfid_api_url;
      rfid_ingest_api_key = some rfid_ingest_api_key;
      scan_interval = scan_interval;
      exit_timeout = exit_timeout;
      edge_data_dir =
          text_unless_empty (get_env env (codes "EDGE_DATA_DIR") none true) env.default_data_dir;
      queue_retry_interval = queue_retry_interval;
      queue_batch_size = to_nat queue_batch_size;
      serial_reconnect_interval = serial_reconnect_interval;
      reader_discovery_interval = reader_discovery_interval;
      auto_configure_reader = auto_configure_reader;
      heartbeat_interval = heartbeat_interval;
      heartbeat_api_url =
          text_unless_empty (value_of env (codes "HEARTBEAT_API_URL"))
            (default_heartbeat_url rfid_api_url);
      target_read_distance_m = target_read_distance_m;
      edge_log_dir = unless_empty f (get_env env (codes "EDGE_LOG_DIR") none true);
    })
