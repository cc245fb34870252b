-- ===== src/Agent/Arrivals.antt =====
-- What a round makes of the tags that its scan reads (src/mvd_edge/app.py).
use mvd_edge_agent.Prelude.{
  ℕ, ◌≡◌, refl, ◌∙◌, ap, true, false, none, some, List, [], ◌∷◌, arith, inl, inr, Bool-cases, All,
  Text, text_eq, text_eq_iff,
}
use mvd_edge_agent.Host.{Host}
use mvd_edge_agent.Config.{EdgeConfig}
use mvd_edge_agent.Outcome.{ok}
use mvd_edge_agent.Dict.{contains, member, HasUniqueKeys}
use mvd_edge_agent.Idt85.Inventory.{valid_result}
use mvd_edge_agent.Idt85.Device.{Idt85Reader}
use mvd_edge_agent.Reader.{inventory}
use mvd_edge_agent.Presence.{PresenceState, DetectedEvent, EventType, enter, exit, update}
use mvd_edge_agent.Presence.Keys.{HasNoNul, key_of}
use mvd_edge_agent.Presence.Marking.{kinds_of, once}
use mvd_edge_agent.Presence.Update.{last_seen, kinds_of-update}
use mvd_edge_agent.Presence.Expiry.{is_due}
use mvd_edge_agent.Connect.Port as Port
use mvd_edge_agent.Scan.{read_inventory_events}
use mvd_edge_agent.Scan.Reports.{read_inventory_events_cases}
use mvd_edge_agent.Agent.Link.{Platform, AgentState, attempt_if_due}
use mvd_edge_agent.Agent.Scanning.{scan_with, scan_reader, scan_if_ready, scan_of}
use mvd_edge_agent.Agent.Scans.{scan_with-IsSound}
use mvd_edge_agent.Agent.Invariant.{IsSound}
use mvd_edge_agent.Agent.{after_scan, after_link, after_events, round}
use mvd_edge_agent.Agent.Recording.{IsRecorded, AreFresh, after_scan-AreRecorded}

module _ (h : Host) (p : Platform h) (config : EdgeConfig ℕ) where
  open h use {World, time}

  -- Among events of which something holds, the first of a kind about a tag.
  first_of_kind :
      (P : DetectedEvent → Type 0) (epc : Text) (kind : EventType) (events : List DetectedEvent)
      (rest : List EventType)
      → All P events
      → kinds_of epc events ≡ kind ∷ rest
      → (event : DetectedEvent) × (event.epc ≡ epc) × (event.event_type ≡ kind) × P event
  first_of_kind P epc kind [] rest all found = cc
  first_of_kind P epc kind (event ∷ events) rest all found =
      elim (Bool-cases (text_eq event.epc epc)) [
        | inl same ↦ (event, (text_eq_iff event.epc epc).0 same, ground (arith, found, same), all.0)
        | inr other ↦ first_of_kind P epc kind events rest all.1 (ground (arith, found, other))
      ]

  scan_with-events :
      (reader : Idt85Reader) (s : AgentState) (w : World)
      → (scan_with h p config reader s w).0
        ≡ (read_inventory_events h (scan_of h p reader s) (some config.reader_id) w).0.events
  unfolding scan_with
  scan_with-events reader s w = ground arith

  scan_with-queue :
      (reader : Idt85Reader) (s : AgentState) (w : World)
      → (scan_with h p config reader s w).1.queue ≡ s.queue
  unfolding scan_with
  scan_with-queue reader s w = ground arith

  attempt_if_due-ready :
      (now : ℕ) (s : AgentState) (w : World)
      → Port.is_ready s.reader_state ≡ true
      → attempt_if_due h p config now s w ≡ (none, s, w)
  unfolding attempt_if_due
  attempt_if_due-ready now s w on = ground (arith, on)

  -- A round of an agent that is READY: a scan and what follows it.
  round-ready :
      (reader : Idt85Reader) (s : AgentState) (w : World)
      → s.reader ≡ some reader
      → Port.is_ready s.reader_state ≡ true
      → (let (events, s', w') = scan_with h p config reader s (time (time w).1).1 in
          round h p config s w ≡ after_scan h p config (time w).0 events s' w')
  unfolding round after_link after_events scan_if_ready scan_reader
  round-ready reader s w held on =
      rw (attempt_if_due-ready (time (time w).1).0 s (time (time w).1).1 on, on, held) refl

  module _ (tags : List Text) (epc : Text) (plain : HasNoNul config.reader_id)
      (there : member epc tags ≡ true) where
    -- An update with a tag that was not held reports first that it entered.
    update-enters :
        (state : PresenceState) (now : ℕ) (w : World)
        → HasUniqueKeys state.visible_tags
        → contains (key_of config.reader_id epc) state.visible_tags ≡ false
        → (rest : List EventType) × (kinds_of epc
              (update h state tags (some now) (some config.reader_id) w).0
            ≡ enter ∷ rest)
    update-enters state now w unique unseen = (
      once (is_due state.exit_timeout now (last_seen h config.reader_id state tags now w epc)) exit,
      kinds_of-update h config.reader_id state tags now w plain unique epc
          ∙ rw (there, unseen) refl,
    )

    -- The same of a scan with a valid inventory.
    scan-enters :
        (reader : Idt85Reader) (s : AgentState) (w : World)
        → HasUniqueKeys s.presence.visible_tags
        → (inventory h reader (time w).1).0 ≡ ok (valid_result tags)
        → contains (key_of config.reader_id epc) s.presence.visible_tags ≡ false
        → (rest : List EventType) × (kinds_of epc (scan_with h p config reader s w).0
            ≡ enter ∷ rest)
    scan-enters reader s w unique read unseen =
        elim (read_inventory_events_cases h (scan_of h p reader s) (some config.reader_id) w) [
          | inl (result, same, is_valid, (w', events, presence)) ↦
              let (rest, entered) =
                update-enters s.presence (time w').0 (time w').1 unique unseen in
              let same_tags : result.tags ≡ tags = ground (arith, read, same) in
              (
                rest,
                ap (kinds_of epc) (scan_with-events reader s w ∙ events) ∙ rw same_tags entered,
              )
          | inr (none_valid, quiet) ↦ elim (none_valid (valid_result tags) read refl) [ ]
        ]

    -- A round of a sound agent that is READY, whose scan gets a valid inventory with a tag that is not
    -- held: afterwards the queue holds an event that this tag entered, with the event's identity and
    -- time and the names of the configuration, whatever the cloud does; the reader's name is to have
    -- no NUL, and the identities of the events detected are to be new to the queue and no two the same.
    pub round-RecordsArrival :
        (reader : Idt85Reader) (s : AgentState) (w : World)
        → IsSound s
        → s.reader ≡ some reader
        → Port.is_ready s.reader_state ≡ true
        → contains (key_of config.reader_id epc) s.presence.visible_tags ≡ false
        → (inventory h reader (time (time (time w).1).1).1).0 ≡ ok (valid_result tags)
        → AreFresh s.queue (scan_with h p config reader s (time (time w).1).1).0
        → (event : DetectedEvent) × (event.epc ≡ epc)
          × (event.event_type ≡ enter)
          × IsRecorded config (round h p config s w).1.queue event
    round-RecordsArrival reader s w v held on unseen read fresh =
        let begun = (time (time w).1).1 in
        let scan = scan_with h p config reader s begun in
        let (rest, entered) = scan-enters reader s begun v.keys_unique read unseen in
        let all =
          after_scan-AreRecorded h p config (time w).0 scan.0 scan.1 scan.2
            (scan_with-IsSound h p config reader s begun v)
            (rw (scan_with-queue reader s begun) fresh) in
        first_of_kind (IsRecorded config (round h p config s w).1.queue) epc enter scan.0 rest
          (rw (round-ready reader s w held on) all) entered
