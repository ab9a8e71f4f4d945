-- ===== src/Config/Tests.antt =====
-- The theorems about src/Configuration.cpp at a concrete environment.
use Prim.Native.String.{String}
use janus_ftl_plugin.Prelude.{◌≡◌, true, ◌&&◌, some}
use janus_ftl_plugin.Prelude.OrdMap.Update.{is_some}
use janus_ftl_plugin.Prelude.Text.{codes}
use janus_ftl_plugin.Config.{Environment, load}
use janus_ftl_plugin.Config.Types.{WhenSome, IsTyped, load-IsTyped}
use janus_ftl_plugin.Config.Loading.{is_number, is_delay_set, load-is_some}

-- Every variable is set, and every number reads as 400.
abbrev environment : Environment
environment = record {
  getenv = λ name. some (codes "400");
  stoul = λ text. some 400;
  gethostname = codes "host";
  wordexp = λ path. path;
  playout_delay_support = true;
}

load-is_some_example :
    let is_set = λ (name : String). is_number environment (environment.getenv name) in
    is_some (load environment) ≡ (
      is_set "FTL_ORCHESTRATOR_PORT"
      && (is_set "FTL_SERVICE_METADATAREPORTINTERVALMS"
          && (is_set "FTL_MAX_ALLOWED_BITS_PER_SECOND"
              && (is_set "FTL_ROLLING_SIZE_AVG_MS"
                  && (is_set "FTL_NACK_LOST_PACKETS"
                      && (is_delay_set environment
                            (environment.getenv "FTL_PLAYOUT_DELAY_MIN_MS")
                            (environment.getenv "FTL_PLAYOUT_DELAY_MAX_MS")
                          && (is_set "FTL_SERVICE_GLIMESH_PORT"
                              && (is_set "FTL_SERVICE_GLIMESH_HTTPS"
                                  && (is_set "FTL_SERVICE_REST_PORT"
                                      && is_set "FTL_SERVICE_REST_HTTPS")))))))))
load-is_some_example = load-is_some environment

load-IsTyped_example : WhenSome IsTyped (load environment)
load-IsTyped_example = load-IsTyped environment
