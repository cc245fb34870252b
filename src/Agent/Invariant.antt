-- ===== src/Agent/Invariant.antt =====
-- What holds of the agent's variables before and after each round (src/mvd_edge/app.py).
use mvd_edge_agent.Prelude.{
  ℕ, ◌≡◌, refl, sym, ◌∙◌, Bool, false, not, leb, ◌&&◌, Option, none, some, arith, Text, Bool-cases,
  inl, inr,
}
use mvd_edge_agent.Dict.{HasUniqueKeys}
use mvd_edge_agent.Host.{Host}
use mvd_edge_agent.Config.{EdgeConfig}
use mvd_edge_agent.Outcome.{Outcome, ok, raised}
use mvd_edge_agent.Idt85.Device.{Idt85Reader}
use mvd_edge_agent.Connect.{connect_and_verify_reader}
use mvd_edge_agent.Connect.Port as Port
use mvd_edge_agent.Connect.Port.{HoldsPort, connect_and_verify_reader-HoldsPort}
use mvd_edge_agent.Health.{
  HealthState, ReaderState, ready, disconnected, connecting, config_error, set_reader_state,
  mark_reconnect_attempt, mark_reader_ready, clear_error, mark_error, mark_reader_offline,
}
use mvd_edge_agent.Health.Coherence.{
  IsCoherent, report, report-IsCoherent, state_set, reconnect_attempt, is_ready, error_cleared,
  error_seen, is_offline,
}
use mvd_edge_agent.Queue.Invariant.{IsValid}
use mvd_edge_agent.Discovery.{DiscoveryResult}
use mvd_edge_agent.Agent.Link.{
  Platform, AgentState, begun, after_attempt, connect_built, connect_resolved, attempt_resolved,
  truthy, ResolvedPort, attempt_reader, attempt_if_due, resolve_reader_port, state_of_search,
}

-- Whether the agent holds an open port.
abbrev pub holds_port : Option Idt85Reader → Bool
holds_port none = false
holds_port (some reader) = reader.is_open

-- The queue and the presence are valid, the health state is coherent, it and the port agree with the
-- reader's state: the port is open, and the reader is reported as connected, exactly if it is READY.
pub record IsSound (s : AgentState) : Type 0 where
  pub queue_valid : IsValid s.queue
  pub keys_unique : HasUniqueKeys s.presence.visible_tags
  pub coherent : IsCoherent s.health
  pub port_held : holds_port s.reader ≡ Port.is_ready s.reader_state
  pub reported : s.health.reader_connected ≡ Port.is_ready s.reader_state
  pub state_reported : s.health.reader_state ≡ s.reader_state

-- What an attempt to connect needs of the variables, while the state is not reported yet.
pub record IsDetached (s : AgentState) : Type 0 where
  pub queue_valid : IsValid s.queue
  pub keys_unique : HasUniqueKeys s.presence.visible_tags
  pub coherent : IsCoherent s.health

module _ (h : Host) (p : Platform h) (config : EdgeConfig ℕ) where
  open h use {World, time}

  begun-IsCoherent :
      (s : AgentState) (w : World) → IsCoherent s.health → IsCoherent (begun s).health
  unfolding report
  begun-IsCoherent s w c =
      report-IsCoherent h reconnect_attempt (set_reader_state connecting s.health) w
        (report-IsCoherent h (state_set connecting) s.health w c)

  begun-IsSound :
      (s : AgentState) (w : World)
      → IsSound s
      → Port.is_ready s.reader_state ≡ false
      → IsSound (begun s)
  unfolding set_reader_state mark_reconnect_attempt
  begun-IsSound s w v off = record {
    queue_valid = v.queue_valid;
    keys_unique = v.keys_unique;
    coherent = begun-IsCoherent s w v.coherent;
    port_held = v.port_held ∙ off;
    reported = refl;
    state_reported = refl;
  }

  found-IsCoherent :
      (s : HealthState) (w : World)
      → IsCoherent s
      → IsCoherent (clear_error (mark_reader_ready (set_reader_state ready s)))
  unfolding report
  found-IsCoherent s w c =
      let told = set_reader_state ready s in
      report-IsCoherent h error_cleared (mark_reader_ready told) w
        (report-IsCoherent h is_ready told w (report-IsCoherent h (state_set ready) s w c))

  lost-IsCoherent :
      (error message : Text) (state : ReaderState) (s : HealthState) (w : World)
      → IsCoherent s
      → IsCoherent (mark_reader_offline message (mark_error h error (set_reader_state state s) w).0)
  unfolding report
  lost-IsCoherent error message state s w c =
      let told = set_reader_state state s in
      let marked = mark_error h error told w in
      report-IsCoherent h (is_offline message) marked.0 marked.1 (
        report-IsCoherent h (error_seen error) told w (report-IsCoherent h (state_set state) s w c))

  after_attempt-IsSound :
      (now : ℕ) (state : ReaderState) (message : Text) (s : AgentState) (w : World)
      → IsDetached s
      → holds_port s.reader ≡ Port.is_ready state
      → IsSound (after_attempt h p config now state message s w).0
  unfolding after_attempt set_reader_state mark_reader_ready clear_error mark_error
      mark_reader_offline
  after_attempt-IsSound now ready message s w v held = record {
    queue_valid = v.queue_valid;
    keys_unique = v.keys_unique;
    coherent = found-IsCoherent s.health w v.coherent;
    port_held = held;
    reported = refl;
    state_reported = refl;
  }
  after_attempt-IsSound now disconnected message s w v held = record {
    queue_valid = v.queue_valid;
    keys_unique = v.keys_unique;
    coherent = lost-IsCoherent _ message disconnected s.health w v.coherent;
    port_held = held;
    reported = refl;
    state_reported = refl;
  }
  after_attempt-IsSound now connecting message s w v held = record {
    queue_valid = v.queue_valid;
    keys_unique = v.keys_unique;
    coherent = lost-IsCoherent _ message connecting s.health w v.coherent;
    port_held = held;
    reported = refl;
    state_reported = refl;
  }
  after_attempt-IsSound now config_error message s w v held = record {
    queue_valid = v.queue_valid;
    keys_unique = v.keys_unique;
    coherent = lost-IsCoherent message message config_error s.health w v.coherent;
    port_held = held;
    reported = refl;
    state_reported = refl;
  }

  state_of_search_not_ready :
      (discovery : Option DiscoveryResult) → Port.is_ready (state_of_search discovery) ≡ false
  state_of_search_not_ready discovery = ground arith

  connect_built-IsSound :
      (now : ℕ) (built : Outcome Idt85Reader) (s : AgentState) (w : World)
      → IsSound s
      → IsSound (connect_built h p config now built s w).1
  unfolding connect_built
  connect_built-IsSound now (raised e) s w v = v
  connect_built-IsSound now (ok reader) s w v =
      let (c, w') = connect_and_verify_reader h reader config.auto_configure_reader w in
      after_attempt-IsSound now c.state c.message (record s { reader = some c.reader }) w'
        (record { queue_valid = v.queue_valid; keys_unique = v.keys_unique; coherent = v.coherent })
        (connect_and_verify_reader-HoldsPort h reader config.auto_configure_reader w)

  connect_resolved-IsSound :
      (now : ℕ) (port : Option Text) (resolved : ResolvedPort) (s : AgentState) (w : World)
      → IsSound s
      → Port.is_ready s.reader_state ≡ false
      → IsSound (connect_resolved h p config now port resolved s w).1
  unfolding connect_resolved
  connect_resolved-IsSound now (some port) resolved s w v off = connect_built-IsSound now _ s w v
  connect_resolved-IsSound now none resolved s w v off =
      after_attempt-IsSound now (state_of_search resolved.discovery) resolved.message s w
        (record { queue_valid = v.queue_valid; keys_unique = v.keys_unique; coherent = v.coherent })
        (v.port_held ∙ off ∙ sym (state_of_search_not_ready resolved.discovery))

  attempt_resolved-IsSound :
      (now : ℕ) (outcome : Outcome ResolvedPort) (s : AgentState) (w : World)
      → IsSound s
      → Port.is_ready s.reader_state ≡ false
      → IsSound (attempt_resolved h p config now outcome s w).1
  unfolding attempt_resolved
  attempt_resolved-IsSound now (raised e) s w v off = v
  attempt_resolved-IsSound now (ok resolved) s w v off =
      connect_resolved-IsSound now (truthy resolved.port) resolved s w v off

  pub attempt_if_due-IsSound :
      (now : ℕ) (s : AgentState) (w : World)
      → IsSound s
      → IsSound (attempt_if_due h p config now s w).1
  unfolding attempt_if_due attempt_reader
  attempt_if_due-IsSound now s w v =
      elim (Bool-cases (leb s.next_reader_attempt now && not (Port.is_ready s.reader_state))) [
        | inl due ↦ rw due (
            attempt_resolved-IsSound now (resolve_reader_port h p config w).0 (begun s)
              (resolve_reader_port h p config w).1 (begun-IsSound s w v (ground (arith, due))) refl)
        | inr early ↦ rw early v
      ]
