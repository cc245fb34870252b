-- ===== src/Agent/Loop.antt =====
-- What holds of each round of the agent's loop holds of the loop (src/mvd_edge/app.py).
use mvd_edge_agent.Prelude.{ℕ, zero, suc, Bool, true, false, Option, none, some}
use mvd_edge_agent.Host.{Host}
use mvd_edge_agent.Config.{EdgeConfig}
use mvd_edge_agent.Outcome.{Error}
use mvd_edge_agent.Agent.Link.{Platform, AgentState}
use mvd_edge_agent.Agent.{round, rounds}

module _ (h : Host) (p : Platform h) (config : EdgeConfig ℕ) where
  open h use {World}

  -- A relation of the variables before, the exception, and the variables after.
  module _ (R : AgentState → Option Error → AgentState → Type 0) where
    rounds_from :
        (n : ℕ) (s : AgentState)
        → ((t : AgentState)
            → R s none t
            → (w : World) → R s (rounds h p n config t w).0 (rounds h p n config t w).1)
        → (requested : Bool) (w : World) (next : Option Error × AgentState × World) → R s none s
        → R s next.0 next.1
        → (let result = (elim requested as (λ _. Option Error × AgentState × World) [
          | true ↦ (none, s, w)
          | false ↦ elim next.0 as (λ _. Option Error × AgentState × World) [
            | some e ↦ next
            | none ↦ rounds h p n config next.1 next.2
          ]
        ]) in
            R s result.0 result.1)
    rounds_from n s more true w next same step = same
    rounds_from n s more false w (some e, t, w') same step = step
    rounds_from n s more false w (none, t, w') same step = more t step w'

    -- A relation that a round has, that composes, and that a shutdown has, is one of all rounds.
    pub rounds_lem :
        ((s : AgentState) → R s none s)
        → ((s t u : AgentState) (e : Option Error) → R s none t → R t e u → R s e u)
        → ((s : AgentState) (w : World) → R s (round h p config s w).0 (round h p config s w).1)
        → (n : ℕ) (s : AgentState) (w : World)
        → R s (rounds h p n config s w).0 (rounds h p n config s w).1
    unfolding rounds
    rounds_lem same trans step zero s w = same s
    rounds_lem same trans step (suc n) s w =
        rounds_from n s (λ t held w'. trans s t _ _ held (rounds_lem same trans step n t w'))
          (p.shutdown_requested w) w (round h p config s w) (same s) (step s w)
