-- ===== src/Agent/Restarts.antt =====
-- Runs of the agent one after the other on the same file (src/mvd_edge/app.py,
-- src/mvd_edge/storage/queue.py).
use mvd_edge_agent.Prelude.{ℕ, Option, none, some, List, [], ◌∷◌, Text}
use mvd_edge_agent.Host.{Host}
use mvd_edge_agent.Config.{EdgeConfig}
use mvd_edge_agent.Outcome.{Outcome, ok, raised, Error}
use mvd_edge_agent.Queue.{EventQueue, QueuedEvent, get, initialize_schema}
use mvd_edge_agent.Queue.Invariant.{IsValid, empty-IsValid}
use mvd_edge_agent.Queue.History.{IsKept, IsKept-trans, IsKept-refl}
use mvd_edge_agent.Agent.Link.{Platform, AgentState}
use mvd_edge_agent.Agent.{run_agent}
use mvd_edge_agent.Agent.Endings.{IsEnding, run_agent-IsEnding}

-- What a file that may not be there holds of an event.
abbrev pub stored_in : Option EventQueue → Text → Option QueuedEvent
stored_in none id = none
stored_in (some queue) id = get id queue

abbrev pub IsValidFile : Option EventQueue → Type 0
IsValidFile none = Unit
IsValidFile (some queue) = IsValid queue

-- The file after a run; an unsupported device is refused before the file is opened.
abbrev pub file_after :
    {W : Type 0} → Option EventQueue → Outcome (Option Error × AgentState × W) → Option EventQueue
file_after file (raised e) = file
file_after file (ok (error, s, w)) = some s.queue

initialize_schema-IsValid :
    (file : Option EventQueue) → IsValidFile file → IsValid (initialize_schema file)
initialize_schema-IsValid none v = empty-IsValid
initialize_schema-IsValid (some queue) v = v

module _ (h : Host) (p : Platform h) where
  open h use {World}

  abbrev pub world_after : World → Outcome (Option Error × AgentState × World) → World
  world_after w (raised e) = w
  world_after w (ok (error, s, w')) = w'

  -- Runs of some rounds each, one after the other, each with its configuration.
  unfoldable pub agent_runs :
      List (ℕ × EdgeConfig ℕ) → Option EventQueue → World → Option EventQueue × World
  agent_runs [] file w = (file, w)
  agent_runs ((n, config) ∷ runs) file w =
      let ending = run_agent h p n config (initialize_schema file) w in
      agent_runs runs (file_after file ending) (world_after w ending)

  module _ (id : Text) where
    IsKept-initialize :
        (file : Option EventQueue) (after : Option QueuedEvent)
        → IsKept (get id (initialize_schema file)) after
        → IsKept (stored_in file id) after
    IsKept-initialize none after kept = tt
    IsKept-initialize (some queue) after kept = kept

    file_after-IsKept :
        (device_type : Text) (file : Option EventQueue)
        (ending : Outcome (Option Error × AgentState × World))
        → IsValidFile file
        → IsEnding device_type (initialize_schema file) id ending
        → IsValidFile (file_after file ending)
          × IsKept (stored_in file id) (stored_in (file_after file ending) id)
    file_after-IsKept device_type file (raised e) v ends = (v, IsKept-refl h (stored_in file id))
    file_after-IsKept device_type file (ok (error, s, w)) v ends =
        (ends.2, IsKept-initialize file (get id s.queue) ends.3)

    -- However often the agent is started on the same file, each time with a configuration of its own
    -- and for any number of rounds: a file with a valid table, or none, becomes one with a valid table,
    -- or none, and an event that was stored in it stays stored, under its row and with its date of
    -- creation, its count of attempts never falls, and once delivered it stays delivered.
    pub agent_runs-IsKept :
        (runs : List (ℕ × EdgeConfig ℕ)) (file : Option EventQueue) (w : World)
        → IsValidFile file
        → IsValidFile (agent_runs runs file w).0
          × IsKept (stored_in file id) (stored_in (agent_runs runs file w).0 id)
    unfolding agent_runs
    agent_runs-IsKept [] file w v = (v, IsKept-refl h (stored_in file id))
    agent_runs-IsKept ((n, config) ∷ runs) file w v =
        let ending = run_agent h p n config (initialize_schema file) w in
        let next = file_after-IsKept config.device_type file ending v (
          run_agent-IsEnding h p config n (initialize_schema file) w id
            (initialize_schema-IsValid file v)) in
        let rest = agent_runs-IsKept runs (file_after file ending) (world_after w ending) next.0 in
        (
          rest.0,
          IsKept-trans (stored_in file id) (stored_in (file_after file ending) id) _ next.1 rest.1,
        )
