-- ===== src/Discovery/Ports.antt =====
-- The serial ports and their metadata (src/mvd_edge/discovery/serial.py).
use mvd_edge_agent.Prelude.{
  true, false, Option, none, some, List, [], ◌∷◌, Text, codes, strip, text_le,
}
use mvd_edge_agent.Prelude.Sort.{sort_by}
use mvd_edge_agent.Dict.{Dict, lookup, put}
use mvd_edge_agent.Numerals.{ℤ, int_of_hex}
use mvd_edge_agent.Outcome.{Outcome, ok, raised, process_error}
use mvd_edge_agent.Host.{Host, PortInfo, UsbValue, absent, integer, written}
use mvd_edge_agent.Discovery.{Metadata}

abbrev pub hex_unless_blank : Text → Option ℤ
hex_unless_blank [] = none
hex_unless_blank (c ∷ t) = int_of_hex (c ∷ t)

-- `_normalize_usb_id`
unfoldable pub normalize_usb_id : UsbValue → Option ℤ
normalize_usb_id absent = none
normalize_usb_id (integer n) = some n
normalize_usb_id (written value) = hex_unless_blank (strip value)

-- `text or None`
abbrev pub text_or_none : Text → Option Text
text_or_none [] = none
text_or_none (c ∷ t) = some (c ∷ t)

-- `_normalize_usb_serial`
unfoldable pub normalize_usb_serial : Option Text → Option Text
normalize_usb_serial none = none
normalize_usb_serial (some value) = text_or_none (strip value)

-- `_metadata`
unfoldable pub metadata_of : PortInfo → Metadata
metadata_of info = record {
  port = info.device;
  stable_path = info.stable_path;
  description = info.description;
  manufacturer = info.manufacturer;
  vid = normalize_usb_id info.vid;
  pid = normalize_usb_id info.pid;
  serial_number = normalize_usb_serial info.serial_number;
}

-- A text that counts as true.
abbrev pub non_empty : Option Text → Option Text
non_empty none = none
non_empty (some t) = text_or_none t

module _ (h : Host) where
  open h use {World, comports, iterdir, exists, resolve}

  -- The paths that exist, up to an exception.
  unfoldable pub existing : List Text → World → Outcome (List Text) × World
  existing [] w = (ok [], w)
  existing (path ∷ paths) w =
      let (found, w1) = exists path w in
      let (others, w2) = existing paths w1 in
      elim found [
        | raised e ↦ (raised e, w1)
        | ok is_there ↦ elim others [
          | raised e ↦ (raised e, w2)
          | ok rest ↦ (ok (elim is_there [ true ↦ path ∷ rest | false ↦ rest ]), w2)
        ]
      ]

  -- `except OSError`: no paths; another exception goes on.
  abbrev pub sorted_or_none : Outcome (List Text) → Outcome (List Text)
  sorted_or_none (ok paths) = ok (sort_by text_le paths)
  sorted_or_none (raised (process_error e)) = ok []
  sorted_or_none (raised e) = raised e

  abbrev pub existing_of : Outcome (List Text) × World → Outcome (List Text) × World
  existing_of (raised e, w) = (raised e, w)
  existing_of (ok paths, w) = existing paths w

  unfoldable pub enumerate_by_id_paths : World → Outcome (List Text) × World
  unfolding existing
  enumerate_by_id_paths w =
      let (found, w') = existing_of (iterdir (codes "/dev/serial/by-id") w) in
      (sorted_or_none found, w')

  -- `_resolved`
  abbrev pub resolved_or_none : Outcome Text → Outcome (Option Text)
  resolved_or_none (ok target) = ok (some target)
  resolved_or_none (raised (process_error e)) = ok none
  resolved_or_none (raised e) = raised e

  unfoldable pub resolved : Text → World → Outcome (Option Text) × World
  resolved path w = let (target, w') = resolve path w in (resolved_or_none target, w')

  -- The entry of a path whose target is known.
  abbrev pub put_target : Option Text → Text → Dict Text → Dict Text
  put_target none path paths = paths
  put_target (some target) path paths = put target path paths

  -- `stable_paths_by_target`, onto the entries of the paths before.
  unfoldable pub stable_paths : List Text → Dict Text → World → Outcome (Dict Text) × World
  stable_paths [] known w = (ok known, w)
  stable_paths (path ∷ paths) known w =
      let (target, w1) = resolved path w in
      elim target [
        | raised e ↦ (raised e, w1)
        | ok found ↦ stable_paths paths (put_target (non_empty found) path known) w1
      ]

  abbrev pub empty_unless : Option Text → Text
  empty_unless none = []
  empty_unless (some t) = t

  -- `_metadata_with_stable_path`: the target of the port is looked up only where the port has no entry.
  unfoldable pub with_stable_path : Dict Text → Metadata → World → Outcome Metadata × World
  with_stable_path known m w = elim (non_empty m.stable_path) [
    | some path ↦ (ok m, w)
    | none ↦ elim (non_empty (lookup m.port known)) [
      | some path ↦ (ok (record m { stable_path = some path }), w)
      | none ↦
          let (target, w1) = resolved m.port w in
          elim target [
            | raised e ↦ (raised e, w1)
            | ok found ↦ (ok (record m { stable_path = lookup (empty_unless found) known }), w1)
          ]
    ]
  ]

  -- `all_metadata`
  unfoldable pub all_with_stable_path :
      Dict Text → List PortInfo → World → Outcome (List Metadata) × World
  unfolding with_stable_path
  all_with_stable_path known [] w = (ok [], w)
  all_with_stable_path known (info ∷ infos) w =
      let (m, w1) = with_stable_path known (metadata_of info) w in
      let (others, w2) = all_with_stable_path known infos w1 in
      elim m [
        | raised e ↦ (raised e, w1)
        | ok first ↦ elim others [ raised e ↦ (raised e, w2) | ok rest ↦ (ok (first ∷ rest), w2) ]
      ]

  abbrev pub of_paths : Outcome (List Text) × World → Outcome (Dict Text) × World
  of_paths (raised e, w) = (raised e, w)
  of_paths (ok paths, w) = stable_paths paths [] w

  abbrev pub of_infos : Outcome (Dict Text) × World → Outcome (List Metadata) × World
  of_infos (raised e, w) = (raised e, w)
  of_infos (ok known, w) = let (infos, w') = comports w in all_with_stable_path known infos w'

  -- What `discover_reader_port` knows of the ports before it filters them.
  unfoldable pub collect_metadata : World → Outcome (List Metadata) × World
  unfolding enumerate_by_id_paths stable_paths all_with_stable_path
  collect_metadata w = of_infos (of_paths (enumerate_by_id_paths w))
