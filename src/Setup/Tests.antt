-- ===== src/Setup/Tests.antt =====
-- The theorem about the constructor of src/JanusFtl.cpp at an empty environment.
use janus_ftl_plugin.Prelude.{true, none, some}
use janus_ftl_plugin.Prelude.Text.{codes}
use janus_ftl_plugin.Config.{Environment}
use janus_ftl_plugin.Setup.{new_plugin, IsSetUpOrNot, new_plugin-IsSetUp}

-- No variable is set, so that every default is taken.
abbrev environment : Environment
environment = record {
  getenv = λ name. none;
  stoul = λ text. some 400;
  gethostname = codes "host";
  wordexp = λ path. path;
  playout_delay_support = true;
}

new_plugin-IsSetUp_example :
    IsSetUpOrNot (λ service. true) (new_plugin environment (λ service. true))
new_plugin-IsSetUp_example = new_plugin-IsSetUp environment (λ service. true)
