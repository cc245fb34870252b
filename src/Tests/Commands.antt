-- ===== src/Tests/Commands.antt =====
-- The command line on the configuration of the tests.
use mvd_edge_agent.Prelude.{
  ◌≡◌, refl, false, inl, some, [], Text, ◌∷◌, codes, text_eq, arith, strip,
}
use mvd_edge_agent.Dict.{lookup}
use mvd_edge_agent.Config.Values.{required_string}
use mvd_edge_agent.Config.Environment.{Environment, get_env, from_env}
use mvd_edge_agent.Outcome.{ok, raised, other_error, message}
use mvd_edge_agent.Agent.{run_agent_on_file}
use mvd_edge_agent.Cli.{Release, main, run_configured}
use mvd_edge_agent.Cli.Check.{check_config}
use mvd_edge_agent.Cli.Hidden.{AgreeButForKey, check_config-hides}
use mvd_edge_agent.Cli.Success.{expected_exit, main-expected_exit}
use mvd_edge_agent.Tests.{start}
use mvd_edge_agent.Tests.Agent.{two_events}
use mvd_edge_agent.Tests.Loop.{storing_host, storing_host-RaisesOsErrors, never, platform_of}
use mvd_edge_agent.Tests.Configs.{naturals, env, from_env-expected}

abbrev release : Release
release = record {
  agent_version = codes "1.0";
  platform = codes "test";
  python_version = codes "3.12";
}

main-expected_exit_example :
    main storing_host
      (platform_of storing_host never)
      naturals
      (λ n. n)
      release
      (record { version = false; check_config = false })
      3
      env
      (ok (some two_events))
      start
    ≡ expected_exit (from_env naturals env) (ok (some two_events))
main-expected_exit_example =
    main-expected_exit storing_host (platform_of storing_host never) naturals (λ n. n)
      storing_host-RaisesOsErrors (λ url headers body timeout w. inl (λ e. omega (arith, e)))
      release env 3 (ok (some two_events)) start

-- That configuration names the supported device.
expected_exit-env : expected_exit (from_env naturals env) (ok (some two_events)) ≡ (0, [])
unfolding text_eq
expected_exit-env = rw from_env-expected refl

-- An opening that raises ends the program.
main_without_file :
    main storing_host
      (platform_of storing_host never)
      naturals
      (λ n. n)
      release
      (record { version = false; check_config = false })
      3
      env
      (raised (other_error (codes "unable to open database file")))
      start
    ≡ (1, codes "FATAL STARTUP ERROR: unable to open database file" ∷ [])
unfolding main run_configured run_agent_on_file text_eq message
main_without_file = rw from_env-expected refl

-- The file with one key or another in front.
abbrev with_key : Text → Environment
with_key key = record env {
  file_values = (codes "RFID_INGEST_API_KEY", some key) ∷ env.file_values;
}

with_key-AgreeButForKey : (key other : Text) → AgreeButForKey (with_key key) (with_key other)
unfolding get_env lookup text_eq
with_key-AgreeButForKey key other = record {
  values = λ name default allow different. rw different refl;
  data_dir = refl;
}

check_config-hides_example :
    check_config naturals (codes "1.0") (from_env naturals (with_key (codes "first")))
    ≡ check_config naturals (codes "1.0") (from_env naturals (with_key (codes "second")))
unfolding get_env required_string lookup text_eq strip
check_config-hides_example =
    check_config-hides naturals (codes "1.0") (with_key (codes "first")) (with_key (codes "second"))
      (with_key-AgreeButForKey (codes "first") (codes "second")) (codes "first") (codes "second")
      refl refl
