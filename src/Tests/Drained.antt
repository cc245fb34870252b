-- ===== src/Tests/Drained.antt =====
-- Rounds of deliveries and runs of the agent one after the other.
use mvd_edge_agent.Prelude.{ℕ, ◌≡◌, ◌-◌, ◌*◌, refl, inl, some, List, [], ◌∷◌, codes, text_eq}
use mvd_edge_agent.Json.{field_of}
use mvd_edge_agent.Config.{EdgeConfig}
use mvd_edge_agent.Cloud.{CloudTransport}
use mvd_edge_agent.Queue.{pending_count}
use mvd_edge_agent.Queue.History.{IsKept}
use mvd_edge_agent.Delivery.Drained.{AlwaysStores, deliver_rounds, pending_count-deliver_rounds}
use mvd_edge_agent.Agent.Restarts.{IsValidFile, stored_in, agent_runs, agent_runs-IsKept}
use mvd_edge_agent.Tests.{test_host, start}
use mvd_edge_agent.Tests.Agent.{two_events, two_events-IsValid, transport, waiting}
use mvd_edge_agent.Tests.Loop.{storing_host, never, platform_of, test_config}

pub storing_host-AlwaysStores : (to : CloudTransport) → AlwaysStores storing_host to
unfolding field_of text_eq
storing_host-AlwaysStores to url headers body timeout w = record {
  response = _;
  arrived = refl;
  created = refl;
  fields = _;
  parsed = refl;
  stored = inl refl;
}

pending_count-deliver_rounds_example :
    pending_count (deliver_rounds storing_host transport 3 1 waiting start).0.queue
    ≡ pending_count waiting.queue - 3 * 1
pending_count-deliver_rounds_example =
    pending_count-deliver_rounds storing_host transport (storing_host-AlwaysStores transport) 3 1
      waiting start two_events-IsValid

abbrev runs : List (ℕ × EdgeConfig ℕ)
runs =
    (2, test_config)
    ∷ (0, record test_config { device_type = codes "OTHER" })
    ∷ (1, test_config)
    ∷ []

agent_runs-IsKept_example :
    IsValidFile (agent_runs test_host (platform_of test_host never) runs (some two_events) start).0
    × IsKept (stored_in (some two_events) (codes "a")) (
        stored_in
          (agent_runs test_host (platform_of test_host never) runs (some two_events) start).0
          (codes "a"))
agent_runs-IsKept_example =
    agent_runs-IsKept test_host (platform_of test_host never) (codes "a") runs (some two_events)
      start two_events-IsValid
