-- ===== src/Discovery/Selection.antt =====
-- What the search for the reader's port returns (src/mvd_edge/discovery/serial.py).
use mathlib.Core.List.{Perm}
use mathlib.Core.Path.{subst}
use mvd_edge_agent.Prelude.{
  ℕ, ◌<◌, ◌≡◌, ◌↔◌, refl, sym, Bool, true, false, Option, none, some, List, [], ◌∷◌, keep, not,
  ◌==◌, length, arith, Text, text_le_total, text_le_trans,
}
use mvd_edge_agent.Prelude.Sort.{IsSorted, sort_by, sort_by-perm, sort_by-IsSorted}
use mvd_edge_agent.Outcome.{Outcome, ok, raised}
use mvd_edge_agent.Host.{Host}
use mvd_edge_agent.Idt85.Command.{
  build_inventory_command, build_get_reader_info_command, build_get_work_mode_command,
  build_set_answer_mode_command, answer_mode_params,
}
use mvd_edge_agent.Discovery.Probes.{AreProbes, HasProbes, probe_all-HasProbes}
use mvd_edge_agent.Idt85.Command.Frame.{make_command_lem}
use mvd_edge_agent.Idt85.Device.{create}
use mvd_edge_agent.Discovery.{
  Metadata, DiscoveredSerialDevice, DiscoveryResult, ProbeSettings, UsbFilter, supported_readers,
  candidate_port, rank_le, matches_usb_filter, select_reader, probe_reader_port, probe_all,
  discover_reader_port,
}

-- The port of the only device of a list.
abbrev only : List DiscoveredSerialDevice → Option Text
only [] = none
only (d ∷ []) = some d.port
only (d ∷ other ∷ more) = none

only_iff :
    (devices : List DiscoveredSerialDevice) (p : Text)
    → (only devices ≡ some p) ↔ ((d : DiscoveredSerialDevice) × (devices ≡ d ∷ []) × (d.port ≡ p))
only_iff [] p = (λ e. cc, λ (d, e, q). cc)
only_iff (d ∷ []) p = (λ e. (d, refl, ground (arith, e)), λ (other, e, q). ground (arith, e, q))
only_iff (d ∷ other ∷ more) p = (λ e. cc, λ (single, e, q). ground (arith, e))

select_reader-only :
    (is_filtered : Bool) (devices : List DiscoveredSerialDevice)
    → (select_reader is_filtered devices).selected_port ≡ only (supported_readers devices)
unfolding select_reader
select_reader-only is_filtered devices = ground arith

select_reader-devices :
    (is_filtered : Bool) (devices : List DiscoveredSerialDevice)
    → (select_reader is_filtered devices).devices ≡ devices
unfolding select_reader
select_reader-devices is_filtered devices = ground arith

rank_le_total : (a b : Metadata) → rank_le a b ≡ false → rank_le b a ≡ true
unfolding rank_le
rank_le_total a b h = ground (arith, text_le_total (candidate_port a) (candidate_port b))

rank_le_trans : (a b c : Metadata) → rank_le a b ≡ true → rank_le b c ≡ true → rank_le a c ≡ true
unfolding rank_le
rank_le_trans a b c h k =
    ground (arith, text_le_trans (candidate_port a) (candidate_port b) (candidate_port c))

abbrev IsOk : {A : Type 0} → Outcome A → Type 0
IsOk (ok a) = Unit
IsOk (raised e) = ⊥

IsOk-eq : {A : Type 0} (o : Outcome A) → IsOk o → (a : A) × (o ≡ ok a)
IsOk-eq (ok a) holds = (a, refl)
IsOk-eq (raised e) holds = elim holds [ ]

create-IsOk :
    (port : Text) (baudrate address read_delay : ℕ) (verify_method : Text)
    → address < 256
    → IsOk (create port baudrate address read_delay verify_method)
unfolding create build_inventory_command build_get_reader_info_command build_get_work_mode_command
    build_set_answer_mode_command
create-IsOk port baudrate address read_delay verify_method small =
    let inventory = make_command_lem address 0x01 [] small (omega arith) tt (omega arith) in
    let info = make_command_lem 0xFF 0x21 [] (omega arith) (omega arith) tt (omega arith) in
    let mode = make_command_lem address 0x36 [] small (omega arith) tt (omega arith) in
    let answer =
      make_command_lem address 0x35 answer_mode_params small (omega arith)
        (omega arith, (omega arith, (omega arith, (omega arith, (omega arith, (omega arith, tt))))))
        (omega arith) in
    rw (inventory.1, info.1, mode.1, answer.1) tt

module _ (h : Host) where
  open h use {World}

  probe_reader_port-IsOk :
      (s : ProbeSettings) (port : Text) (w : World)
      → s.reader_address < 256
      → IsOk (probe_reader_port h s port w).0
  unfolding probe_reader_port
  probe_reader_port-IsOk s port w small = ground (
    arith,
    create-IsOk port s.baudrate s.reader_address s.read_delay s.reader_verify_method small,
  )

  probe_all-IsOk :
      (s : ProbeSettings) (candidates : List Metadata) (w : World)
      → s.reader_address < 256
      → IsOk (probe_all h s candidates w).0
  unfolding probe_all
  probe_all-IsOk s [] w small = tt
  probe_all-IsOk s (m ∷ candidates) w small =
      let w1 = (probe_reader_port h s (candidate_port m) w).1 in
      ground (
        arith,
        probe_reader_port-IsOk s (candidate_port m) w small,
        probe_all-IsOk s candidates w1 small,
      )

  -- A result of the search: the ports that pass the filter are probed in the order of their ranks,
  -- and a port is selected exactly if one device alone is a verified reader, which has that port.
  pub record IsSearch (s : ProbeSettings) (f : UsbFilter) (all_metadata : List Metadata) (w : World)
      (result : DiscoveryResult) : Type 0 where
    pub candidates : List Metadata
    pub every_match : Perm candidates (keep (matches_usb_filter f) all_metadata)
    pub ordered : IsSorted rank_le candidates
    pub probed : AreProbes h s w candidates result.devices
    pub selected :
        (p : Text)
        → (result.selected_port ≡ some p) ↔ (
            (d : DiscoveredSerialDevice) × (supported_readers result.devices ≡ d ∷ [])
            × (d.port ≡ p))

  -- For a reader address that is a byte, the search returns a result, whatever the ports and the
  -- readers on them do: one device for each port that passes the filter, in the order of rank and
  -- path, and a verified reader exactly if the reader of that port opens when its turn comes and then
  -- passes its verification; and the search selects a port exactly if one device alone is a verified
  -- reader, which has that port.
  pub discover_reader_port-IsSearch :
      (s : ProbeSettings) (f : UsbFilter) (all_metadata : List Metadata) (w : World)
      → s.reader_address < 256
      → (result : DiscoveryResult) × ((discover_reader_port h s f all_metadata w).0 ≡ ok result)
        × IsSearch s f all_metadata w result
  unfolding discover_reader_port
  discover_reader_port-IsSearch s f all_metadata w small =
      let filtered = keep (matches_usb_filter f) all_metadata in
      let sorted = sort_by rank_le filtered in
      let (devices, e) = IsOk-eq (probe_all h s sorted w).0 (probe_all-IsOk s sorted w small) in
      let is_filtered = not (length all_metadata == length filtered) in
      let same = select_reader-devices is_filtered devices in
      (
        select_reader is_filtered devices,
        ground (arith, e),
        record {
          candidates = sorted;
          every_match = sort_by-perm rank_le filtered;
          ordered = sort_by-IsSorted rank_le rank_le_total rank_le_trans filtered;
          probed =
              subst (AreProbes h s w sorted) (sym same)
                (subst (HasProbes h s w sorted) e (probe_all-HasProbes h s sorted w));
          selected = λ p.
              subst
                (λ (ds : List DiscoveredSerialDevice).
                  ((select_reader is_filtered devices).selected_port ≡ some p)
                  ↔ ((d : DiscoveredSerialDevice) × (supported_readers ds ≡ d ∷ []) × (d.port ≡ p)))
                (sym same)
                (subst
                  (λ (o : Option Text). (o ≡ some p) ↔ (
                    (d : DiscoveredSerialDevice) × (supported_readers devices ≡ d ∷ [])
                    × (d.port ≡ p)))
                  (sym (select_reader-only is_filtered devices))
                  (only_iff (supported_readers devices) p));
        },
      )
