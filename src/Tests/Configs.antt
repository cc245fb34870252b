-- ===== src/Tests/Configs.antt =====
-- A configuration read from a file on which every value stands.
use mvd_edge_agent.Prelude.{
  ℕ, ◌≡◌, refl, true, false, leb, ltb, none, some, [], ◌∷◌, codes, text_eq, strip, upper, lower,
}
use mvd_edge_agent.Dict.{lookup, member}
use mvd_edge_agent.Outcome.{ok}
use mvd_edge_agent.Cloud.{decimal}
use mvd_edge_agent.Presence.{starts_with}
use mvd_edge_agent.Config.{EdgeConfig}
use mvd_edge_agent.Numerals.{read_digits, int_of_decimal, int_of_any, int_of_hex}
use mvd_edge_agent.Config.Values.{
  Floats, required_string, parse_int, parse_float, parse_bool, parse_reader_address,
  parse_verify_method, optional_usb_id, optional_string, optional_positive_float,
  default_heartbeat_url,
}
use mvd_edge_agent.Config.Environment.{Environment, get_env, usb_ids, from_env}
use mvd_edge_agent.Config.Usable.{IsUsable, from_env-IsUsable}

-- The numbers of the file are whole.
abbrev pub naturals : Floats
naturals = record {
  Real = ℕ;
  of_text = λ t. read_digits 10 0 false t;
  at_most = leb;
  less = ltb;
  zero_point = 0;
  text_of = decimal;
  general = decimal;
}

abbrev pub env : Environment
env = record {
  file_values =
      (codes "CUSTOMER_ID", some (codes " C1 "))
      ∷ (codes "SITE_ID", some (codes "S1"))
      ∷ (codes "LOCATION_ID", some (codes "L1"))
      ∷ (codes "ZONE_ID", some (codes "Z1"))
      ∷ (codes "DEVICE_ID", some (codes "D1"))
      ∷ (codes "READER_ID", some (codes "R1"))
      ∷ (codes "READER_ADDRESS", some (codes "0xFF"))
      ∷ (codes "USB_VENDOR_ID", some (codes "10c4"))
      ∷ (codes "USB_PRODUCT_ID", some (codes "ea60"))
      ∷ (codes "SCAN_INTERVAL", some (codes "1"))
      ∷ (codes "EXIT_TIMEOUT", some (codes "3"))
      ∷ (codes "READER_DISCOVERY_INTERVAL", some (codes "7"))
      ∷ (codes "RFID_API_URL", some (codes "https://example.test/api/v1/rfid/events"))
      ∷ (codes "RFID_INGEST_API_KEY", some (codes "key"))
      ∷ [];
  file_exists = true;
  environ = [];
  default_data_dir = codes "data";
}

abbrev pub expected : EdgeConfig ℕ
expected = record {
  application_profile = codes "RFID_ASSET_TRACKING";
  customer_id = codes "C1";
  site_id = codes "S1";
  location_id = codes "L1";
  zone_id = codes "Z1";
  device_id = codes "D1";
  device_type = codes "IDT85";
  reader_id = codes "R1";
  reader_address = 255;
  reader_verify_method = codes "AUTO";
  usb_vendor_id = some 0x10C4;
  usb_product_id = some 0xEA60;
  usb_serial = none;
  serial_port = codes "AUTO";
  serial_baud = 57600;
  rfid_api_url = codes "https://example.test/api/v1/rfid/events";
  rfid_ingest_api_key = some (codes "key");
  scan_interval = 1;
  exit_timeout = 3;
  edge_data_dir = codes "data";
  queue_retry_interval = 5;
  queue_batch_size = 20;
  serial_reconnect_interval = 5;
  reader_discovery_interval = 7;
  auto_configure_reader = false;
  heartbeat_interval = 30;
  heartbeat_api_url = codes "https://example.test/api/v1/edge/heartbeat";
  target_read_distance_m = none;
  edge_log_dir = none;
}

pub from_env-expected : from_env naturals env ≡ ok expected
unfolding from_env get_env usb_ids required_string parse_int parse_float parse_bool
    parse_reader_address parse_verify_method optional_usb_id optional_string optional_positive_float
    default_heartbeat_url read_digits int_of_decimal int_of_any int_of_hex lookup member text_eq
    strip upper lower starts_with
from_env-expected = refl

from_env-IsUsable_example : IsUsable naturals expected
from_env-IsUsable_example = from_env-IsUsable naturals env expected from_env-expected
