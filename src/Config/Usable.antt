-- ===== src/Config/Usable.antt =====
-- What a configuration that was read promises (src/mvd_edge/config.py).
use mvd_edge_agent.Prelude.{
  ℕ, ◌≡◌, ◌≤◌, ◌<◌, true, false, Option, some, [], ◌∷◌, All, arith, Text, codes, text_eq,
  text_eq_iff,
}
use mvd_edge_agent.Dict.{is_some}
use mvd_edge_agent.Outcome.{ok, HoldsOf, HoldsOf-of_ok}
use mvd_edge_agent.Idt85.Crc.{IsByte}
use mvd_edge_agent.Idt85.Device.{is_supported_method}
use mvd_edge_agent.Config.{EdgeConfig}
use mvd_edge_agent.Numerals.{ℤ, to_nat}
use mvd_edge_agent.Config.Values.{
  Floats, required_string, parse_int, parse_float, parse_reader_address, parse_verify_method,
  optional_usb_id, optional_positive_float,
}
use mvd_edge_agent.Config.Environment.{
  Environment, value_of, value_or, usb_ids, interval_of, count_of, from_env,
}

abbrev pub IsFilled : Text → Type 0
IsFilled t = text_eq t [] ≡ false

-- A number above 0, as Python compares it.
abbrev pub IsPositive : (f : Floats) → f.Real → Type 0
IsPositive f t = f.at_most t f.zero_point ≡ false

pub required_string-IsFilled :
    (name : Text) (value : Option Text) (read : Text)
    → required_string name value ≡ ok read
    → IsFilled read
unfolding required_string
required_string-IsFilled name value read done = ground (arith, done, text_eq_iff read [])

parse_reader_address-IsByte :
    (name : Text) (value : Option Text) (address : ℕ)
    → parse_reader_address name value ≡ ok address
    → IsByte address
unfolding parse_reader_address
parse_reader_address-IsByte name value address done = ground (arith, done)

parse_int-at_least :
    (name : Text) (value : Option Text) (minimum : ℕ) (n : ℤ)
    → parse_int name value (some minimum) ≡ ok n
    → minimum ≤ to_nat n
unfolding parse_int
parse_int-at_least name value minimum n done = ground (arith, done)

parse_verify_method-supported :
    (name : Text) (value : Option Text) (method : Text)
    → parse_verify_method name value ≡ ok method
    → is_supported_method method ≡ true
unfolding parse_verify_method
parse_verify_method-supported name value method done = ground (arith, done)

optional_usb_id-lt :
    (name : Text) (value : Option Text) (id : ℕ)
    → optional_usb_id name value ≡ ok (some id)
    → id < 65536
unfolding optional_usb_id
optional_usb_id-lt name value id done = ground (arith, done)

-- What the agent needs of its configuration.
pub record IsUsable (f : Floats) (config : EdgeConfig f.Real) : Type 0 where
  pub named : All IsFilled (
      config.application_profile ∷ config.customer_id ∷ config.site_id ∷ config.location_id
      ∷ config.zone_id ∷ config.device_id ∷ config.device_type ∷ config.reader_id
      ∷ config.serial_port ∷ config.rfid_api_url ∷ [])
  pub reader_byte : IsByte config.reader_address
  pub verified : is_supported_method config.reader_verify_method ≡ true
  pub identified : is_some config.usb_vendor_id ≡ is_some config.usb_product_id
  pub paced : 1 ≤ config.serial_baud
  pub batched : 1 ≤ config.queue_batch_size
  pub timed : All (IsPositive f) (
      config.scan_interval ∷ config.exit_timeout ∷ config.queue_retry_interval
      ∷ config.serial_reconnect_interval ∷ config.reader_discovery_interval
      ∷ config.heartbeat_interval ∷ [])

module _ (f : Floats) where
  open f use {Real, at_most, zero_point, text_of}

  parse_float-above :
      (name : Text) (value : Option Text) (bound read : Real)
      → parse_float f name value (some bound) true ≡ ok read
      → at_most read bound ≡ false
  unfolding parse_float
  parse_float-above name value bound read done = ground (arith, done)

  optional_positive_float-positive :
      (name : Text) (value : Option Text) (read : Real)
      → optional_positive_float f name value ≡ ok (some read)
      → at_most read zero_point ≡ false
  unfolding optional_positive_float
  optional_positive_float-positive name value read done = ground (arith, done)

  -- The parsers as `from_env` calls them.
  required-IsFilled :
      (name : Text) (value : Option Text) → HoldsOf IsFilled (required_string name value)
  required-IsFilled name value = HoldsOf-of_ok IsFilled _ (required_string-IsFilled name value)

  interval-IsPositive :
      (env : Environment) (name default : Text)
      → HoldsOf (IsPositive f) (interval_of f env name default)
  interval-IsPositive env name default =
      HoldsOf-of_ok (IsPositive f) _ (parse_float-above name (value_or env name default) zero_point)

  abbrev IsAtLeastOne : ℤ → Type 0
  IsAtLeastOne n = 1 ≤ to_nat n

  count_of-IsAtLeastOne :
      (env : Environment) (name default : Text) → HoldsOf IsAtLeastOne (count_of f env name default)
  count_of-IsAtLeastOne env name default =
      HoldsOf-of_ok IsAtLeastOne _ (parse_int-at_least name (value_or env name default) 1)

  abbrev ArePaired : Option ℕ × Option ℕ → Type 0
  ArePaired ids = is_some ids.0 ≡ is_some ids.1

  usb_ids-ArePaired : (env : Environment) → HoldsOf ArePaired (usb_ids env)
  unfolding usb_ids
  usb_ids-ArePaired env = ground arith

  module _ (env : Environment) (config : EdgeConfig Real) (done : from_env f env ≡ ok config) where
    from_env-names : All IsFilled (
        config.application_profile ∷ config.customer_id ∷ config.site_id ∷ config.location_id
        ∷ config.zone_id ∷ config.device_id ∷ config.device_type ∷ config.reader_id
        ∷ config.serial_port ∷ config.rfid_api_url ∷ [])
    unfolding from_env
    from_env-names = ground (
      arith,
      done,
      required-IsFilled (codes "APPLICATION_PROFILE")
          (value_or env (codes "APPLICATION_PROFILE") (codes "RFID_ASSET_TRACKING")),
      required-IsFilled (codes "CUSTOMER_ID") (value_of env (codes "CUSTOMER_ID")),
      required-IsFilled (codes "SITE_ID") (value_of env (codes "SITE_ID")),
      required-IsFilled (codes "LOCATION_ID") (value_of env (codes "LOCATION_ID")),
      required-IsFilled (codes "ZONE_ID") (value_of env (codes "ZONE_ID")),
      required-IsFilled (codes "DEVICE_ID") (value_of env (codes "DEVICE_ID")),
      required-IsFilled (codes "DEVICE_TYPE") (value_or env (codes "DEVICE_TYPE") (codes "IDT85")),
      required-IsFilled (codes "READER_ID") (value_of env (codes "READER_ID")),
      required-IsFilled (codes "SERIAL_PORT") (value_or env (codes "SERIAL_PORT") (codes "AUTO")),
      required-IsFilled (codes "RFID_API_URL") (value_of env (codes "RFID_API_URL")),
    )

    from_env-reader :
        IsByte config.reader_address
        × (is_supported_method config.reader_verify_method ≡ true)
        × (is_some config.usb_vendor_id ≡ is_some config.usb_product_id)
        × (1 ≤ config.serial_baud)
        × (1 ≤ config.queue_batch_size)
    unfolding from_env
    from_env-reader = ground (
      arith,
      done,
      HoldsOf-of_ok IsByte _ (
          parse_reader_address-IsByte (codes "READER_ADDRESS")
            (value_or env (codes "READER_ADDRESS") (codes "0x00"))),
      HoldsOf-of_ok (λ (method : Text). is_supported_method method ≡ true) _
          (parse_verify_method-supported (codes "READER_VERIFY_METHOD")
            (value_or env (codes "READER_VERIFY_METHOD") (codes "AUTO"))),
      usb_ids-ArePaired env,
      count_of-IsAtLeastOne env (codes "SERIAL_BAUD") (codes "57600"),
      count_of-IsAtLeastOne env (codes "QUEUE_BATCH_SIZE") (codes "20"),
    )

    from_env-times : All (IsPositive f) (
        config.scan_interval ∷ config.exit_timeout ∷ config.queue_retry_interval
        ∷ config.serial_reconnect_interval ∷ config.reader_discovery_interval
        ∷ config.heartbeat_interval ∷ [])
    unfolding from_env
    from_env-times = ground (
      arith,
      done,
      interval-IsPositive env (codes "SCAN_INTERVAL") (codes "0.5"),
      interval-IsPositive env (codes "EXIT_TIMEOUT") (codes "3.0"),
      interval-IsPositive env (codes "QUEUE_RETRY_INTERVAL") (codes "5"),
      interval-IsPositive env (codes "SERIAL_RECONNECT_INTERVAL") (codes "5"),
      HoldsOf-of_ok
          (λ (serial : Real).
            HoldsOf (IsPositive f)
              (interval_of f env (codes "READER_DISCOVERY_INTERVAL") (text_of serial)))
          (interval_of f env (codes "SERIAL_RECONNECT_INTERVAL") (codes "5"))
          (λ serial read.
            interval-IsPositive env (codes "READER_DISCOVERY_INTERVAL") (text_of serial)),
      interval-IsPositive env (codes "HEARTBEAT_INTERVAL") (codes "30"),
    )

    -- A configuration that is read from a file and the environment has no empty name, port or
    -- address of the cloud, a reader address that is a byte, a method of verification that the
    -- reader supports, both USB identities or neither, a rate and a batch of at least 1, and no
    -- interval that compares as at most 0.
    pub from_env-IsUsable : IsUsable f config
    from_env-IsUsable = record {
      named = from_env-names;
      reader_byte = from_env-reader.0;
      verified = from_env-reader.1;
      identified = from_env-reader.2;
      paced = from_env-reader.3;
      batched = from_env-reader.4;
      timed = from_env-times;
    }
