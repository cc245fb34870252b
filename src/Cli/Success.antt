-- ===== src/Cli/Success.antt =====
-- The exit status of the agent (src/mvd_edge/app.py, src/mvd_edge/config.py).
use mvd_edge_agent.Prelude.{
  ℕ, ◌≡◌, ◌<◌, refl, true, false, Option, none, List, [], ◌∷◌, ◌++◌, if◌then◌else◌, Text, codes,
  text_eq, Bool-cases, inl, inr,
}
use mvd_edge_agent.Outcome.{Outcome, ok, raised, message}
use mvd_edge_agent.Queue.{initialize_schema}
use mvd_edge_agent.Cli.Format.{labelled}
use mvd_edge_agent.Host.{Host}
use mvd_edge_agent.Config.{EdgeConfig}
use mvd_edge_agent.Config.Values.{Floats}
use mvd_edge_agent.Config.Environment.{Environment, from_env}
use mvd_edge_agent.Config.Usable.{from_env-IsUsable}
use mvd_edge_agent.Discovery.Paths.{RaisesOsErrors}
use mvd_edge_agent.Queue.{EventQueue}
use mvd_edge_agent.Agent.Link.{Platform}
use mvd_edge_agent.Agent.{run_agent, run_agent_on_file, rounds, supported_device}
use mvd_edge_agent.Agent as Agent
use mvd_edge_agent.Agent.Errors.{Answers, IsReadable, rounds_raise_not}
use mvd_edge_agent.Cli.{Release, in_ticks, exit_of, run_configured, main}

-- The exit status that opening the queue leads to.
abbrev pub exit_of_opening : Outcome (Option EventQueue) → ℕ × List Text
exit_of_opening (raised e) = (1, labelled (codes "FATAL STARTUP ERROR:") (message e) ∷ [])
exit_of_opening (ok file) = (0, [])

-- The exit status and the printed lines of `main`, from the configuration and the opening of the queue
-- alone.
abbrev pub expected_exit :
    {R : Type 0} → Outcome (EdgeConfig R) → Outcome (Option EventQueue) → ℕ × List Text
expected_exit (raised e) file = (1, labelled (codes "FATAL CONFIGURATION ERROR:") (message e) ∷ [])
expected_exit (ok config) file =
    if text_eq config.device_type supported_device then exit_of_opening file else (
      1,
      labelled (codes "FATAL STARTUP ERROR:")
            (codes "Unsupported DEVICE_TYPE: " ++ config.device_type)
          ∷ [],
    )

module _ (h : Host) (p : Platform h) where
  open h use {World}

  run_agent-exit :
      (config : EdgeConfig ℕ) (n : ℕ) (queue : EventQueue) (w : World)
      → text_eq config.device_type supported_device ≡ true
      → (rounds h p n config
          (Agent.start h p config queue w).0
          (Agent.start h p config queue w).1).0
        ≡ none
      → exit_of (run_agent h p n config queue w) ≡ (0, [])
  unfolding run_agent
  run_agent-exit config n queue w supported fine = rw (supported, fine) refl

  module _ (f : Floats) (ticks : f.Real → ℕ) (found : RaisesOsErrors h)
      (readable : Answers h IsReadable) where
    run_agent_on_file-exit :
        (config : EdgeConfig f.Real) (n : ℕ) (file : Outcome (Option EventQueue)) (w : World)
        → config.reader_address < 256
        → text_eq config.device_type supported_device ≡ true
        → exit_of (run_agent_on_file h p n (in_ticks ticks config) file w) ≡ exit_of_opening file
    unfolding run_agent_on_file
    run_agent_on_file-exit config n (raised e) w byte supported = rw supported refl
    run_agent_on_file-exit config n (ok file) w byte supported = rw supported (
        run_agent-exit (in_ticks ticks config) n (initialize_schema file) w supported
          (rounds_raise_not h p (in_ticks ticks config) byte found readable n _ _))

    run_agent_on_file-refused :
        (config : EdgeConfig f.Real) (n : ℕ) (file : Outcome (Option EventQueue)) (w : World)
        → text_eq config.device_type supported_device ≡ false
        → exit_of (run_agent_on_file h p n (in_ticks ticks config) file w)
          ≡ expected_exit (ok config) file
    unfolding run_agent_on_file message
    run_agent_on_file-refused config n file w other = rw other refl

    run_configured-exit :
        (env : Environment) (read : Outcome (EdgeConfig f.Real)) (n : ℕ)
        (file : Outcome (Option EventQueue)) (w : World)
        → from_env f env ≡ read
        → run_configured h p f ticks n file w read ≡ expected_exit read file
    unfolding run_configured
    run_configured-exit env (raised e) n file w done = refl
    run_configured-exit env (ok config) n file w done =
        elim (Bool-cases (text_eq config.device_type supported_device)) [
          | inl supported ↦ rw supported (
              run_agent_on_file-exit config n file w
                (from_env-IsUsable f env config done).reader_byte supported)
          | inr other ↦ run_agent_on_file-refused config n file w other
        ]

    -- Without a flag, `main` ends with the exit status 1 and one line on the error if the configuration
    -- cannot be read, if it names a device that is not supported, or if opening the queue raises, and
    -- otherwise with the status 0 and no line of its own: however long the agent runs and whatever the
    -- reader, the ports and the clocks do, where the answers of the cloud can be read, calls on paths
    -- raise nothing but `OSError`, and the queue raises nothing once it is open.
    pub main-expected_exit :
        (release : Release) (env : Environment) (n : ℕ) (file : Outcome (Option EventQueue))
        (w : World)
        → main h p f ticks release (record { version = false; check_config = false }) n env file w
          ≡ expected_exit (from_env f env) file
    unfolding main
    main-expected_exit release env n file w = run_configured-exit env (from_env f env) n file w refl
