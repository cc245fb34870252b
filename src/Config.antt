-- ===== src/Config.antt =====
-- The configuration of the agent, `EdgeConfig` of src/mvd_edge/config.py; `R` stands for Python's
-- `float`.
pub mod Values
pub mod Environment
pub mod Usable
pub mod File
use mvd_edge_agent.Prelude.{ℕ, Bool, Option, Text}

pub record EdgeConfig (R : Type 0) : Type 0 where
  pub application_profile : Text
  pub customer_id : Text
  pub site_id : Text
  pub location_id : Text
  pub zone_id : Text
  pub device_id : Text
  pub device_type : Text
  pub reader_id : Text
  pub reader_address : ℕ
  pub reader_verify_method : Text
  pub usb_vendor_id : Option ℕ
  pub usb_product_id : Option ℕ
  pub usb_serial : Option Text
  pub serial_port : Text
  pub serial_baud : ℕ
  pub rfid_api_url : Text
  pub rfid_ingest_api_key : Option Text
  pub scan_interval : R
  pub exit_timeout : R
  pub edge_data_dir : Text
  pub queue_retry_interval : R
  pub queue_batch_size : ℕ
  pub serial_reconnect_interval : R
  pub reader_discovery_interval : R
  pub auto_configure_reader : Bool
  pub heartbeat_interval : R
  pub heartbeat_api_url : Text
  pub target_read_distance_m : Option R
  pub edge_log_dir : Option Text
