-- ===== src/Discovery.antt =====
-- The search for the reader's port (src/mvd_edge/discovery/serial.py), from the metadata of the ports
-- on.
pub mod Ports
pub mod Paths
pub mod Probes
pub mod Selection
pub mod Building
use mvd_edge_agent.Prelude.{
  ℕ, Bool, true, false, not, ◌&&◌, ◌||◌, ◌==◌, Option, none, some, List, [], ◌∷◌, ◌++◌, leb, ltb,
  length, keep, if◌then◌else◌, Text, codes, text_eq, text_le, lower, upper,
}
use mvd_edge_agent.Numerals.{ℤ, pos, negsuc}
use mvd_edge_agent.Prelude.Sort.{sort_by}
use mvd_edge_agent.Outcome.{Outcome, ok, raised, message}
use mvd_edge_agent.Host.{Host}
use mvd_edge_agent.Presence.{starts_with}
use mvd_edge_agent.Idt85.Device.{Idt85Reader, create}
use mvd_edge_agent.Reader.{open_port, close_port, verify_reader}

-- The dictionary that `_metadata_with_stable_path` returns.
pub record Metadata : Type 0 where
  pub port : Text
  pub stable_path : Option Text
  pub description : Option Text
  pub manufacturer : Option Text
  pub vid : Option ℤ
  pub pid : Option ℤ
  pub serial_number : Option Text

pub record DiscoveredSerialDevice : Type 0 where
  pub port : Text
  pub stable_path : Option Text
  pub description : Option Text
  pub manufacturer : Option Text
  pub vid : Option ℤ
  pub pid : Option ℤ
  pub serial_number : Option Text
  pub reader_verified : Bool
  pub error : Option Text

pub record DiscoveryResult : Type 0 where
  pub selected_port : Option Text
  pub devices : List DiscoveredSerialDevice
  pub message : Text

-- The arguments of the search; `read_delay` is the reader's default, in ticks.
pub record ProbeSettings : Type 0 where
  pub baudrate : ℕ
  pub reader_address : ℕ
  pub read_delay : ℕ
  pub reader_verify_method : Text

pub record UsbFilter : Type 0 where
  pub usb_vendor_id : Option ℕ
  pub usb_product_id : Option ℕ
  pub usb_serial : Option Text

abbrev pub supported_readers : List DiscoveredSerialDevice → List DiscoveredSerialDevice
supported_readers devices = keep (λ (d : DiscoveredSerialDevice). d.reader_verified) devices

-- `value or default`
abbrev pub text_or : Option Text → Text → Text
text_or none default = default
text_or (some []) default = default
text_or (some (c ∷ t)) default = c ∷ t

-- `str(metadata.get("stable_path") or metadata["port"])`
abbrev pub candidate_port : Metadata → Text
candidate_port m = text_or m.stable_path m.port

-- `part in text`
unfoldable pub occurs : Text → Text → Bool
occurs part [] = starts_with part []
occurs part (c ∷ text) = starts_with part (c ∷ text) || occurs part text

abbrev pub haystack : Metadata → Text
haystack m = lower (
    candidate_port m
    ++ (codes " " ++ (text_or m.description [] ++ (codes " " ++ text_or m.manufacturer []))))

-- The first component of `_rank_key`; the second is the candidate's port.
unfoldable pub rank : Metadata → ℕ
rank m =
    if starts_with (codes "/dev/serial/by-id/") (candidate_port m)
    then 0
    else if occurs (codes "usbserial") (haystack m)
        || (occurs (codes "usb-to-serial") (haystack m) || occurs (codes "usb serial") (haystack m))
    then 1
    else if occurs (codes "ttyusb") (haystack m)
        || (occurs (codes "ttyacm") (haystack m) || occurs (codes "slab_usbtouart") (haystack m))
    then 2
    else if starts_with (codes "COM") (upper (candidate_port m))
    then 3
    else 4

-- The order of the pairs.
unfoldable pub rank_le : Metadata → Metadata → Bool
rank_le a b =
    if rank a == rank b
    then text_le (candidate_port a) (candidate_port b)
    else leb (rank a) (rank b)

-- `wanted is not None and value != wanted`, for a number.
abbrev pub differs : Option ℕ → Option ℤ → Bool
differs none value = false
differs (some wanted) none = true
differs (some wanted) (some (pos n)) = not (n == wanted)
differs (some wanted) (some (negsuc n)) = true

-- `wanted and value != wanted`, for a text.
abbrev pub differs_text : Option Text → Option Text → Bool
differs_text none value = false
differs_text (some []) value = false
differs_text (some (c ∷ wanted)) none = true
differs_text (some (c ∷ wanted)) (some t) = not (text_eq t (c ∷ wanted))

unfoldable pub matches_usb_filter : UsbFilter → Metadata → Bool
matches_usb_filter f m =
    if differs f.usb_vendor_id m.vid
    then false
    else if differs f.usb_product_id m.pid
    then false
    else not (differs_text f.usb_serial m.serial_number)

-- The three returns of the search.
unfoldable pub select_reader : Bool → List DiscoveredSerialDevice → DiscoveryResult
select_reader is_filtered devices = elim (supported_readers devices) [
  | [] ↦ record {
    selected_port = none;
    devices = devices;
    message =
        if is_filtered
        then codes "No supported reader found for configured USB filters"
        else codes "No supported reader found";
  }
  | d ∷ others ↦ elim others [
    | [] ↦ record {
      selected_port = some d.port;
      devices = devices;
      message = codes "Reader selected";
    }
    | other ∷ more ↦ record {
      selected_port = none;
      devices = devices;
      message = codes "Multiple supported readers found; configure SERIAL_PORT explicitly";
    }
  ]
]

module _ (h : Host) where
  open h use {World}

  abbrev pub verdict : Outcome Bool → Bool × Option Text
  verdict (ok verified) = (verified, none)
  verdict (raised e) = (false, some (message e))

  -- The `try` block with its handler, and the `finally` that closes the port.
  unfoldable pub probe_opened :
      Idt85Reader → Outcome Idt85Reader × World → (Bool × Option Text) × World
  probe_opened reader (raised e, w) =
      let (closed, w') = close_port h reader w in ((false, some (message e)), w')
  probe_opened reader (ok opened, w) =
      let (outcome, w1) = verify_reader h opened w in
      let (closed, w2) = close_port h opened w1 in (verdict outcome, w2)

  -- The reader is built before the `try`, so that its exception goes on.
  unfoldable pub probe_reader_port :
      ProbeSettings → Text → World → Outcome (Bool × Option Text) × World
  unfolding probe_opened
  probe_reader_port s port w =
      elim (create port s.baudrate s.reader_address s.read_delay s.reader_verify_method) [
        | raised e ↦ (raised e, w)
        | ok reader ↦
            let (result, w') = probe_opened reader (open_port h reader w) in (ok result, w')
      ]

  abbrev pub device_of : Metadata → Bool × Option Text → DiscoveredSerialDevice
  device_of m (verified, error) = record {
    port = candidate_port m;
    stable_path = m.stable_path;
    description = m.description;
    manufacturer = m.manufacturer;
    vid = m.vid;
    pid = m.pid;
    serial_number = m.serial_number;
    reader_verified = verified;
    error = error;
  }

  -- The loop over the candidates.
  unfoldable pub probe_all :
      ProbeSettings → List Metadata → World → Outcome (List DiscoveredSerialDevice) × World
  probe_all s [] w = (ok [], w)
  probe_all s (m ∷ candidates) w =
      let (outcome, w1) = probe_reader_port s (candidate_port m) w in
      let (rest, w2) = probe_all s candidates w1 in
      elim outcome [
        | raised e ↦ (raised e, w1)
        | ok result ↦ elim rest [
          | raised e ↦ (raised e, w2)
          | ok devices ↦ (ok (device_of m result ∷ devices), w2)
        ]
      ]

  unfoldable pub discover_reader_port :
      ProbeSettings → UsbFilter → List Metadata → World → Outcome DiscoveryResult × World
  discover_reader_port s f all_metadata w =
      let filtered = keep (matches_usb_filter f) all_metadata in
      let (outcome, w') = probe_all s (sort_by rank_le filtered) w in
      elim outcome [
        | raised e ↦ (raised e, w')
        | ok devices ↦
            (ok (select_reader (not (length all_metadata == length filtered)) devices), w')
      ]
