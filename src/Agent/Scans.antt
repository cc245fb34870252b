-- ===== src/Agent/Scans.antt =====
-- The scan of a round keeps the invariant (src/mvd_edge/app.py).
use mvd_edge_agent.Prelude.{
  ℕ, ◌≡◌, refl, Bool, true, false, Option, none, some, Bool-cases, inl, inr,
}
use mvd_edge_agent.Dict.{is_some}
use mvd_edge_agent.Host.{Host}
use mvd_edge_agent.Config.{EdgeConfig}
use mvd_edge_agent.Idt85.Device.{Idt85Reader}
use mvd_edge_agent.Connect.Port as Port
use mvd_edge_agent.Health.{HealthState, ReaderState, set_reader_state}
use mvd_edge_agent.Health.Coherence.{IsCoherent, report, report-IsCoherent, state_set}
use mvd_edge_agent.Scan.{read_inventory_events}
use mvd_edge_agent.Scan.Reports.{Says, read_inventory_events-Agrees}
use mvd_edge_agent.Scan.Keeps.{
  AreCoherent, read_inventory_events-IsCoherent, read_inventory_events-HasUniqueKeys,
  read_inventory_events-is_some,
}
use mvd_edge_agent.Agent.Link.{Platform, AgentState, is_disconnected}
use mvd_edge_agent.Agent.Scanning.{scan_with, scan_reader, scan_if_ready, scan_of, or_health}
use mvd_edge_agent.Agent.Invariant.{IsSound, holds_port}

module _ (h : Host) (p : Platform h) (config : EdgeConfig ℕ) where
  open h use {World, time}

  or_health-IsCoherent :
      (old : HealthState) (told : Option HealthState) (connected : Bool) (state : ReaderState)
      (w : World)
      → is_some told ≡ true
      → Says connected told
      → AreCoherent told
      → IsCoherent (set_reader_state state (or_health h p old told))
        × ((set_reader_state state (or_health h p old told)).reader_connected ≡ connected)
        × ((set_reader_state state (or_health h p old told)).reader_state ≡ state)
  unfolding set_reader_state report
  or_health-IsCoherent old none connected state w given says c = cc
  or_health-IsCoherent old (some s) connected state w given says c =
      (report-IsCoherent h (state_set state) s w c, says, refl)

  pub scan_with-IsSound :
      (reader : Idt85Reader) (s : AgentState) (w : World)
      → IsSound s
      → IsSound (scan_with h p config reader s w).1
  unfolding scan_with
  scan_with-IsSound reader s w v =
      let (result, w1) = read_inventory_events h (scan_of h p reader s) (some config.reader_id) w in
      let (held, says) =
        read_inventory_events-Agrees h (scan_of h p reader s) (some config.reader_id) w in
      let (coherent, connected, told) =
        or_health-IsCoherent s.health result.after.health (Port.is_ready result.reader_state)
          result.reader_state w
          (read_inventory_events-is_some h (scan_of h p reader s) (some config.reader_id) w) says
          (read_inventory_events-IsCoherent h (scan_of h p reader s) (some config.reader_id) w
            v.coherent) in
      let unique =
        read_inventory_events-HasUniqueKeys h (scan_of h p reader s) config.reader_id w
          v.keys_unique in
      elim (Bool-cases (is_disconnected result.reader_state)) [
        | inl gone ↦ rw gone (record {
          queue_valid = v.queue_valid;
          keys_unique = unique;
          coherent = coherent;
          port_held = held;
          reported = connected;
          state_reported = told;
        })
        | inr there ↦ rw there (record {
          queue_valid = v.queue_valid;
          keys_unique = unique;
          coherent = coherent;
          port_held = held;
          reported = connected;
          state_reported = told;
        })
      ]

  scan_reader-IsSound :
      (reader : Option Idt85Reader) (s : AgentState) (w : World)
      → IsSound s
      → s.reader ≡ reader
      → Port.is_ready s.reader_state ≡ true
      → IsSound (scan_reader h p config reader s w).1
  unfolding scan_reader
  scan_reader-IsSound none s w v same on =
      let none_held : holds_port s.reader ≡ false = rw same refl in cc (v.port_held, on, none_held)
  scan_reader-IsSound (some reader) s w v same on = scan_with-IsSound reader s w v

  pub scan_if_ready-IsSound :
      (s : AgentState) (w : World) → IsSound s → IsSound (scan_if_ready h p config s w).1
  unfolding scan_if_ready
  scan_if_ready-IsSound s w v = elim (Bool-cases (Port.is_ready s.reader_state)) [
    | inl on ↦ rw on (scan_reader-IsSound s.reader s w v refl on)
    | inr off ↦ rw off v
  ]
