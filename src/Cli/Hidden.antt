-- ===== src/Cli/Hidden.antt =====
-- The key of the cloud and what `check_config` prints (src/mvd_edge/app.py, src/mvd_edge/config.py).
use mvd_edge_agent.Prelude.{
  ◌≡◌, refl, Bool, false, Option, some, none, [], ◌∷◌, ap, true, Text, codes, text_eq, arith,
}
use mvd_edge_agent.Outcome.{Outcome, ok, raised, ◌>>=◌}
use mvd_edge_agent.Config.{EdgeConfig}
use mvd_edge_agent.Config.Usable.{required_string-IsFilled}
use mvd_edge_agent.Numerals.{ℤ}
use mvd_edge_agent.Config.Values.{
  Floats, required_string, parse_int, parse_float, parse_bool, parse_reader_address,
  parse_verify_method, optional_positive_float,
}
use mvd_edge_agent.Config.Environment.{Environment, get_env, value_of, required, usb_ids, from_env}
use mvd_edge_agent.Cli.Check.{check_config, config_lines, key_word}

abbrev pub key_name : Text
key_name = codes "RFID_INGEST_API_KEY"

-- The two environments may differ in the value of the key.
pub record AgreeButForKey (env other : Environment) : Type 0 where
  pub values :
      (name : Text) (default : Option Text) (allow_process_env : Bool)
      → text_eq key_name name ≡ false
      → get_env env name default allow_process_env ≡ get_env other name default allow_process_env
  pub data_dir : env.default_data_dir ≡ other.default_data_dir

module _ (f : Floats) (version : Text) where
  open f use {Real, zero_point, text_of}

  -- A value that is read alike.
  LooksTheSame-bind :
      {A : Type 0} (m k : Outcome A) (rest others : A → Outcome (EdgeConfig Real))
      → m ≡ k
      → ((a : A) → check_config f version (rest a) ≡ check_config f version (others a))
      → check_config f version (m >>= rest) ≡ check_config f version (k >>= others)
  LooksTheSame-bind m (ok a) rest others same each = rw same (each a)
  LooksTheSame-bind m (raised e) rest others same each = rw same refl

  -- A value that is not read from the environments alike is known in both.
  LooksTheSame-known :
      {A : Type 0} (m k : Outcome A) (rest others : A → Outcome (EdgeConfig Real)) {a b : A}
      → m ≡ ok a
      → k ≡ ok b
      → check_config f version (rest a) ≡ check_config f version (others b)
      → check_config f version (m >>= rest) ≡ check_config f version (k >>= others)
  LooksTheSame-known m k rest others first second same = rw (first, second) same

  abbrev interval : Text → Option Text → Outcome Real
  interval name value = parse_float f name value (some zero_point) true

  abbrev count : Text → Option Text → Outcome ℤ
  count name value = parse_int name value (some 1)

  key_word-required :
      (env : Environment) (key : Text)
      → required env key_name ≡ ok key
      → key_word (some key) ≡ codes "configured"
  unfolding text_eq
  key_word-required env [] done =
      ground (arith, required_string-IsFilled key_name (value_of env key_name) [] done)
  key_word-required env (c ∷ key) done = refl

  module _ (env other : Environment) (agree : AgreeButForKey env other) where
    read_same :
        {A : Type 0} (parse : Option Text → Outcome A) (name : Text) (default : Option Text)
        (rest others : A → Outcome (EdgeConfig Real))
        → text_eq key_name name ≡ false
        → ((a : A) → check_config f version (rest a) ≡ check_config f version (others a))
        → check_config f version (parse (get_env env name default false) >>= rest)
          ≡ check_config f version (parse (get_env other name default false) >>= others)
    read_same parse name default rest others another each =
        LooksTheSame-bind _ _ _ _ (ap parse (agree.values name default false another)) each

    usb_ids-same : usb_ids env ≡ usb_ids other
    unfolding usb_ids text_eq
    usb_ids-same =
        rw
          (
            agree.values (codes "USB_VENDOR_ID") none false refl,
            agree.values (codes "USB_PRODUCT_ID") none false refl,
          )
          refl

    -- Two environments that give every value but that of the key alike, and a key each: the exit
    -- status and what is printed are the same, so that they do not tell the key.
    pub check_config-hides :
        (key another : Text)
        → required env key_name ≡ ok key
        → required other key_name ≡ ok another
        → check_config f version (from_env f env) ≡ check_config f version (from_env f other)
    unfolding from_env text_eq check_config config_lines
    check_config-hides key another first second =
        read_same (required_string (codes "RFID_API_URL")) (codes "RFID_API_URL") none _ _ refl
          λ rfid_api_url.
            read_same (interval (codes "SERIAL_RECONNECT_INTERVAL"))
              (codes "SERIAL_RECONNECT_INTERVAL") (some (codes "5")) _ _ refl
              λ serial_reconnect_interval. LooksTheSame-bind _ _ _ _ usb_ids-same λ ids.
                read_same (required_string (codes "APPLICATION_PROFILE"))
                  (codes "APPLICATION_PROFILE") (some (codes "RFID_ASSET_TRACKING")) _ _ refl
                  λ application_profile.
                    read_same (required_string (codes "CUSTOMER_ID")) (codes "CUSTOMER_ID") none _ _
                      refl
                      λ customer_id.
                        read_same (required_string (codes "SITE_ID")) (codes "SITE_ID") none _ _
                          refl
                          λ site_id.
                            read_same (required_string (codes "LOCATION_ID")) (codes "LOCATION_ID")
                              none _ _ refl
                              λ location_id.
                                read_same (required_string (codes "ZONE_ID")) (codes "ZONE_ID") none
                                  _ _ refl
                                  λ zone_id.
                                    read_same (required_string (codes "DEVICE_ID"))
                                      (codes "DEVICE_ID") none _ _ refl
                                      λ device_id.
                                        read_same (required_string (codes "DEVICE_TYPE"))
                                          (codes "DEVICE_TYPE") (some (codes "IDT85")) _ _ refl
                                          λ device_type.
                                            read_same (required_string (codes "READER_ID"))
                                              (codes "READER_ID") none _ _ refl
                                              λ reader_id.
                                                read_same
                                                  (parse_reader_address (codes "READER_ADDRESS"))
                                                  (codes "READER_ADDRESS") (some (codes "0x00")) _ _
                                                  refl
                                                  λ reader_address.
                                                    read_same
                                                      (parse_verify_method
                                                        (codes "READER_VERIFY_METHOD"))
                                                      (codes "READER_VERIFY_METHOD")
                                                      (some (codes "AUTO")) _ _ refl
                                                      λ reader_verify_method.
                                                        read_same
                                                          (required_string (codes "SERIAL_PORT"))
                                                          (codes "SERIAL_PORT")
                                                          (some (codes "AUTO")) _ _ refl
                                                          λ serial_port.
                                                            read_same (count (codes "SERIAL_BAUD"))
                                                            (codes "SERIAL_BAUD")
                                                            (some (codes "57600")) _ _ refl
                                                            λ serial_baud.
                                                            LooksTheSame-known _ _ _ _ first second
                                                            (read_same
                                                            (interval (codes "SCAN_INTERVAL"))
                                                            (codes "SCAN_INTERVAL")
                                                            (some (codes "0.5")) _ _ refl
                                                            λ scan_interval.
                                                            read_same
                                                            (interval (codes "EXIT_TIMEOUT"))
                                                            (codes "EXIT_TIMEOUT")
                                                            (some (codes "3.0")) _ _ refl
                                                            λ exit_timeout.
                                                            read_same
                                                            (interval
                                                            (codes "QUEUE_RETRY_INTERVAL"))
                                                            (codes "QUEUE_RETRY_INTERVAL")
                                                            (some (codes "5")) _ _ refl
                                                            λ queue_retry_interval.
                                                            read_same
                                                            (count (codes "QUEUE_BATCH_SIZE"))
                                                            (codes "QUEUE_BATCH_SIZE")
                                                            (some (codes "20")) _ _ refl
                                                            λ queue_batch_size.
                                                            read_same
                                                            (interval
                                                            (codes "READER_DISCOVERY_INTERVAL"))
                                                            (codes "READER_DISCOVERY_INTERVAL")
                                                            (some
                                                            (text_of serial_reconnect_interval))
                                                            _ _ refl
                                                            λ reader_discovery_interval.
                                                            read_same
                                                            (parse_bool
                                                            (codes "AUTO_CONFIGURE_READER"))
                                                            (codes "AUTO_CONFIGURE_READER")
                                                            (some (codes "false")) _ _ refl
                                                            λ auto_configure_reader.
                                                            read_same
                                                            (interval (codes "HEARTBEAT_INTERVAL"))
                                                            (codes "HEARTBEAT_INTERVAL")
                                                            (some (codes "30")) _ _ refl
                                                            λ heartbeat_interval.
                                                            read_same
                                                            (optional_positive_float f
                                                            (codes "TARGET_READ_DISTANCE_M"))
                                                            (codes "TARGET_READ_DISTANCE_M") none _
                                                            _ refl
                                                            λ target_read_distance_m.
                                                            rw
                                                            (
                                                            key_word-required env key first,
                                                            key_word-required other another second,
                                                            agree.values (codes "USB_SERIAL") none
                                                            false refl,
                                                            agree.values (codes "EDGE_DATA_DIR")
                                                            none true refl,
                                                            agree.values (codes "HEARTBEAT_API_URL")
                                                            none false refl,
                                                            agree.values (codes "EDGE_LOG_DIR") none
                                                            true refl,
                                                            agree.data_dir,
                                                            )
                                                            refl)
