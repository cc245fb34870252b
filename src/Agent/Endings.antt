-- ===== src/Agent/Endings.antt =====
-- How the agent starts and how it ends (src/mvd_edge/app.py).
use mvd_edge_agent.Prelude.{ℕ, ◌≡◌, refl, true, false, Option, some, arith, Text, text_eq}
use mvd_edge_agent.Host.{Host}
use mvd_edge_agent.Config.{EdgeConfig}
use mvd_edge_agent.Outcome.{Outcome, ok, raised, Error}
use mvd_edge_agent.Reader.{close_port}
use mvd_edge_agent.Health as Health
use mvd_edge_agent.Health.{HealthState, disconnected}
use mvd_edge_agent.Health.Coherence.{IsCoherent}
use mvd_edge_agent.Queue.{EventQueue, get}
use mvd_edge_agent.Queue.Invariant.{IsValid}
use mvd_edge_agent.Queue.History.{IsKept, IsKept-trans}
use mvd_edge_agent.Delivery.{DeliveryState}
use mvd_edge_agent.Delivery.Round.{process-IsValid}
use mvd_edge_agent.Delivery.Reports.{process-KeepsLinks}
use mvd_edge_agent.Delivery.Stored.{process-IsKept}
use mvd_edge_agent.Agent.Link.{Platform, AgentState}
use mvd_edge_agent.Agent.Invariant.{IsSound, holds_port}
use mvd_edge_agent.Agent.{transport_of, rounds, shut_down, start, run_agent, supported_device}
use mvd_edge_agent.Agent.Rounds.{rounds-IsSound, or_health-KeepsLink}
use mvd_edge_agent.Agent.Stored.{rounds-IsKept}

-- How a run ends that began with a queue: with the exception for a device that is not supported, or
-- with the port closed and the queue valid, in which the events of before are kept.
abbrev pub IsEnding :
    {W : Type 0} → Text → EventQueue → Text → Outcome (Option Error × AgentState × W) → Type 0
IsEnding device_type queue id (raised e) = text_eq device_type supported_device ≡ false
IsEnding device_type queue id (ok (error, s, w)) =
    (text_eq device_type supported_device ≡ true)
    × (holds_port s.reader ≡ false)
    × IsValid s.queue
    × IsKept (get id queue) (get id s.queue)

create-IsCoherent : IsCoherent (Health.create disconnected)
create-IsCoherent = ground arith

module _ (h : Host) (p : Platform h) (config : EdgeConfig ℕ) where
  open h use {World, time}

  -- The variables before the loop are sound, whatever became of the deliveries that are tried first.
  pub start-IsSound :
      (queue : EventQueue) (w : World) → IsValid queue → IsSound (start h p config queue w).0
  unfolding start
  start-IsSound queue w v =
      let health = Health.create disconnected in
      let before : DeliveryState = record { queue = queue; health = some health } in
      let link =
        or_health-KeepsLink h p config health _
          (process-KeepsLinks h (transport_of config) config.queue_batch_size before w) in
      record {
        queue_valid = process-IsValid h (transport_of config) config.queue_batch_size before w v;
        keys_unique = tt;
        coherent = link.still_coherent create-IsCoherent;
        port_held = refl;
        reported = link.same_connected;
        state_reported = link.same_state;
      }

  start-IsKept :
      (id : Text) (queue : EventQueue) (w : World)
      → IsKept (get id queue) (get id (start h p config queue w).0.queue)
  unfolding start
  start-IsKept id queue w =
      process-IsKept h id (transport_of config) config.queue_batch_size
        (record { queue = queue; health = some (Health.create disconnected) }) w

  shut_down-closes : (s : AgentState) (w : World) → holds_port (shut_down h p s w).0.reader ≡ false
  unfolding shut_down close_port
  shut_down-closes s w = ground arith

  shut_down-queue : (s : AgentState) (w : World) → (shut_down h p s w).0.queue ≡ s.queue
  unfolding shut_down
  shut_down-queue s w = ground arith

  -- On a valid queue the agent refuses a device that is not supported; otherwise, however many
  -- rounds it ran and whether an exception, a shutdown or neither ended them, it leaves the port of
  -- the reader closed and the queue valid, and every event that was stored before it is still
  -- stored, delivered if it was delivered.
  pub run_agent-IsEnding :
      (n : ℕ) (queue : EventQueue) (w : World) (id : Text)
      → IsValid queue
      → IsEnding config.device_type queue id (run_agent h p n config queue w)
  unfolding run_agent
  run_agent-IsEnding n queue w id v =
      let begun = start h p config queue w in
      let ended = rounds h p n config begun.0 begun.1 in
      let closed = shut_down h p ended.1 ended.2 in
      let sound = rounds-IsSound h p config n begun.0 begun.1 (start-IsSound queue w v) in
      let valid : IsValid closed.0.queue = rw (shut_down-queue ended.1 ended.2) sound.queue_valid in
      let kept : IsKept (get id queue) (get id closed.0.queue) =
        rw (shut_down-queue ended.1 ended.2) (
          IsKept-trans (get id queue) (get id begun.0.queue) (get id ended.1.queue)
            (start-IsKept id queue w) (rounds-IsKept h p config id n begun.0 begun.1)) in
      ground (arith, shut_down-closes ended.1 ended.2, valid, kept)
