-- ===== src/Config/File.antt =====
-- Which file the configuration is read from, and what is read of it (src/mvd_edge/config.py).
use mvd_edge_agent.Prelude.{Bool, true, false, Option, none, some, ◌∷◌, Text, codes}
use mvd_edge_agent.Dict.{Dict, lookup}
use mvd_edge_agent.Outcome.{Outcome}
use mvd_edge_agent.Config.{EdgeConfig}
use mvd_edge_agent.Config.Values.{Floats}
use mvd_edge_agent.Config.Environment.{Environment, from_env}

-- What the process finds: its environment, the directory of its executable if it is frozen, its
-- working directory and the directory of the code, the calls on paths, and python-dotenv's
-- `dotenv_values` and `load_dotenv(…, override=True)`.
pub record Surroundings : Type 0 where
  pub environ : Dict Text
  pub frozen_dir : Option Text
  pub cwd : Text
  pub edge_agent_dir : Text
  pub joined : Text → Text → Text
  pub exists : Text → Bool
  pub dotenv_values : Text → Dict (Option Text)
  pub load_dotenv : Text → Dict Text → Dict Text

-- `a or b`, for texts of the environment.
abbrev pub first_set : Option Text → Option Text → Option Text
first_set (some (c ∷ t)) second = some (c ∷ t)
first_set _ (some (c ∷ t)) = some (c ∷ t)
first_set _ _ = none

abbrev pub runtime_dir : Surroundings → Text
runtime_dir s = elim s.frozen_dir [ some directory ↦ directory | none ↦ s.cwd ]

-- The file beside the program if it is there, and that of the code otherwise.
abbrev pub default_file : Surroundings → Text
default_file s =
    let runtime_env_file = s.joined (runtime_dir s) (codes ".env") in
    elim (s.exists runtime_env_file) [
      | true ↦ runtime_env_file
      | false ↦ s.joined s.edge_agent_dir (codes ".env")
    ]

abbrev pub configured_file : Surroundings → Option Text
configured_file s =
    first_set (lookup (codes "MVD_EDGE_CONFIG") s.environ)
      (lookup (codes "MVD_EDGE_ENV_FILE") s.environ)

unfoldable pub discover_config_file : Surroundings → Option Text → Text
discover_config_file s (some env_file) = env_file
discover_config_file s none = elim (configured_file s) [ some file ↦ file | none ↦ default_file s ]

-- What `get_env` of `from_env` sees of a file.
abbrev pub environment_of : Surroundings → Text → Environment
environment_of s file = record {
  file_values = s.dotenv_values file;
  file_exists = s.exists file;
  environ = s.load_dotenv file s.environ;
  default_data_dir = s.joined s.edge_agent_dir (codes "data");
}

unfoldable pub from_env_file :
    (f : Floats) → Surroundings → Option Text → Outcome (EdgeConfig f.Real)
unfolding discover_config_file
from_env_file f s env_file = from_env f (environment_of s (discover_config_file s env_file))
