-- ===== src/Setup.antt =====
-- The constructor of src/JanusFtl.cpp: how the parts are put together from the environment. Whether
-- the service can be initialised is a parameter.
mod Tests
use janus_ftl_plugin.Prelude.{
  ℕ, ◌≡◌, ◌<◌, ◌^◌, ◌∙◌, refl, sym, ap, Bool, true, false, Option, none, some, List, [], ◌∷◌, ◌++◌,
  if◌then◌else◌, not, arith, if-both, if-cases,
}
use mathlib.Core.List.{append_assoc}
use janus_ftl_plugin.Prelude.Text.{Text}
use janus_ftl_plugin.Rtp.Packet.{Bytes}
use janus_ftl_plugin.Janus.{NodeKind, JanusFtl, new_janus_ftl, has_orchestrator}
use janus_ftl_plugin.Janus.Plugin.{is_edge}
use janus_ftl_plugin.Config.{Environment, Configuration, ServiceConnectionKind, load}
use janus_ftl_plugin.Config
use janus_ftl_plugin.Config.Types.{WhenSome, IsDelay, IsTyped, load-IsTyped}
use janus_ftl_plugin.Glimesh.{GlimeshServiceConnection, new_glimesh_connection}
use janus_ftl_plugin.Rest.{RestServiceConnection, new_rest_connection}
use janus_ftl_plugin.Dummy.{DummyServiceConnection}

-- Where a server is.
pub record Location : Type 0 where
  pub hostname : Text
  pub port : ℕ
  pub use_https : Bool

pub data Service : Type 0 where
  edge : Service
  glimesh : (at : Location) → GlimeshServiceConnection → Service
  rest : (at : Location) (auth_token : Text) → RestServiceConnection → Service
  dummy : DummyServiceConnection → Service

unfoldable configured_service : ServiceConnectionKind → Configuration → Service
configured_service ServiceConnectionKind.glimesh c =
    glimesh
      (record {
        hostname = c.glimesh_service_hostname;
        port = c.glimesh_service_port;
        use_https = c.glimesh_service_use_https;
      })
      (new_glimesh_connection c.glimesh_service_client_id c.glimesh_service_client_secret)
configured_service ServiceConnectionKind.rest c =
    rest
      (record {
        hostname = c.rest_service_hostname;
        port = c.rest_service_port;
        use_https = c.rest_service_use_https;
      })
      c.rest_service_auth_token (new_rest_connection c.rest_service_path_base)
configured_service ServiceConnectionKind.dummy c = dummy (record {
  hmac_key = c.dummy_hmac_key;
  preview_save_path = c.dummy_preview_image_path;
  current_stream_id = 0;
})

-- A node at the edge has a service of its own, whatever is configured.
unfoldable new_service : NodeKind → Configuration → Service
unfolding configured_service
new_service NodeKind.edge c = edge
new_service NodeKind.ingest c = configured_service c.service_connection_kind c
new_service NodeKind.standalone c = configured_service c.service_connection_kind c

pub data SetupEffect : Type 0 where
  connect_orchestrator : (hostname my_hostname : Text) (psk : Bytes) (port : ℕ) → SetupEffect
  send_intro : (region_code my_hostname : Text) → SetupEffect
  init_service : Service → SetupEffect
  start_server : (rolling_size_avg_ms : ℕ) (nack_lost_packets : Bool) → SetupEffect
  start_report_thread ready : SetupEffect

unfoldable init_orchestrator_connection : Configuration → List SetupEffect
unfolding has_orchestrator
init_orchestrator_connection c =
    if has_orchestrator c.node_kind
    then connect_orchestrator c.orchestrator_hostname c.my_hostname c.orchestrator_psk
        c.orchestrator_port
      ∷ send_intro c.orchestrator_region_code c.my_hostname
      ∷ []
    else []

pub record Plugin : Type 0 where
  pub ftl : JanusFtl
  pub service : Service
  pub max_allowed_bits_per_second : ℕ
  pub rolling_size_avg_ms : ℕ
  pub metadata_report_interval_ms : ℕ

-- `none` is the exception of a service that cannot be initialised.
unfoldable set_up : (Service → Bool) → Configuration → List SetupEffect × Option Plugin
unfolding init_orchestrator_connection new_service
set_up can_init c =
    let service = new_service c.node_kind c in
    let before = init_orchestrator_connection c ++ init_service service ∷ [] in
    if can_init service
    then (
      before
          ++ start_server c.rolling_size_avg_ms c.nack_lost_packets
            ∷ start_report_thread
            ∷ ready
            ∷ [],
      some (record {
        ftl = new_janus_ftl c.node_kind c.playout_delay;
        service = service;
        max_allowed_bits_per_second = c.max_allowed_bits_per_second;
        rolling_size_avg_ms = c.rolling_size_avg_ms;
        metadata_report_interval_ms = c.metadata_report_interval_ms;
      }),
    )
    else (before, none)

-- An environment that cannot be loaded throws as well.
pub new_plugin : Environment → (Service → Bool) → List SetupEffect × Option Plugin
unfolding set_up
new_plugin e can_init = elim (load e) [ none ↦ ([], none) | some c ↦ set_up can_init c ]

abbrev is_edge_service : Service → Bool
is_edge_service edge = true
is_edge_service s = false

-- Whether the orchestrator is connected to.
abbrev connects : List SetupEffect → Bool
connects [] = false
connects (connect_orchestrator hostname my_hostname psk port ∷ es) = true
connects (send_intro region_code my_hostname ∷ es) = connects es
connects (init_service s ∷ es) = connects es
connects (start_server avg nack ∷ es) = connects es
connects (start_report_thread ∷ es) = connects es
connects (ready ∷ es) = connects es

-- The services that are initialised.
abbrev initialised : List SetupEffect → List Service
initialised [] = []
initialised (connect_orchestrator hostname my_hostname psk port ∷ es) = initialised es
initialised (send_intro region_code my_hostname ∷ es) = initialised es
initialised (init_service s ∷ es) = s ∷ initialised es
initialised (start_server avg nack ∷ es) = initialised es
initialised (start_report_thread ∷ es) = initialised es
initialised (ready ∷ es) = initialised es

-- Whether the server is started.
abbrev starts : List SetupEffect → Bool
starts [] = false
starts (connect_orchestrator hostname my_hostname psk port ∷ es) = starts es
starts (send_intro region_code my_hostname ∷ es) = starts es
starts (init_service s ∷ es) = starts es
starts (start_server avg nack ∷ es) = true
starts (start_report_thread ∷ es) = starts es
starts (ready ∷ es) = starts es

abbrev is_standalone : NodeKind → Bool
is_standalone NodeKind.standalone = true
is_standalone NodeKind.ingest = false
is_standalone NodeKind.edge = false

pub record IsSetUp (can_init : Service → Bool) (es : List SetupEffect) (p : Plugin) : Type 0 where
  pub service : is_edge_service p.service ≡ is_edge p.ftl.node_kind
  pub only : initialised es ≡ p.service ∷ []
  pub works : can_init p.service ≡ true
  pub started : starts es ≡ true
  pub connected : connects es ≡ not (is_standalone p.ftl.node_kind)
  pub client : p.ftl.orchestration_client ≡ not (is_standalone p.ftl.node_kind)
  pub delay : IsDelay p.ftl.playout_delay
  pub limit : p.max_allowed_bits_per_second < 2 ^ 32

-- What has been done, and the plugin if there is one.
abbrev pub IsSetUpOrNot : (Service → Bool) → List SetupEffect × Option Plugin → Type 0
IsSetUpOrNot can_init (es, none) = starts es ≡ false
IsSetUpOrNot can_init (es, some p) = IsSetUp can_init es p

configured_service-is_edge :
    (kind : ServiceConnectionKind) (c : Configuration)
    → is_edge_service (configured_service kind c) ≡ false
unfolding configured_service
configured_service-is_edge ServiceConnectionKind.glimesh c = refl
configured_service-is_edge ServiceConnectionKind.rest c = refl
configured_service-is_edge ServiceConnectionKind.dummy c = refl

new_service-is_edge :
    (kind : NodeKind) (c : Configuration) → is_edge_service (new_service kind c) ≡ is_edge kind
unfolding new_service is_edge
new_service-is_edge NodeKind.edge c = refl
new_service-is_edge NodeKind.ingest c = configured_service-is_edge c.service_connection_kind c
new_service-is_edge NodeKind.standalone c = configured_service-is_edge c.service_connection_kind c

has_orchestrator_lem : (kind : NodeKind) → has_orchestrator kind ≡ not (is_standalone kind)
unfolding has_orchestrator
has_orchestrator_lem NodeKind.standalone = refl
has_orchestrator_lem NodeKind.ingest = refl
has_orchestrator_lem NodeKind.edge = refl

init_orchestrator_connection-connects :
    (c : Configuration) (es : List SetupEffect)
    → connects es ≡ false
    → connects (init_orchestrator_connection c ++ es) ≡ has_orchestrator c.node_kind
unfolding init_orchestrator_connection
init_orchestrator_connection-connects c es none_left =
    if-cases (λ (fs : List SetupEffect). connects (fs ++ es) ≡ has_orchestrator c.node_kind)
      (has_orchestrator c.node_kind) (λ yes. sym yes) (λ no. none_left ∙ sym no)

init_orchestrator_connection-initialised :
    (c : Configuration) (es : List SetupEffect)
    → initialised (init_orchestrator_connection c ++ es) ≡ initialised es
unfolding init_orchestrator_connection
init_orchestrator_connection-initialised c es =
    if-cases (λ (fs : List SetupEffect). initialised (fs ++ es) ≡ initialised es)
      (has_orchestrator c.node_kind) (λ yes. refl) (λ no. refl)

init_orchestrator_connection-starts :
    (c : Configuration) (es : List SetupEffect)
    → starts (init_orchestrator_connection c ++ es) ≡ starts es
unfolding init_orchestrator_connection
init_orchestrator_connection-starts c es =
    if-cases (λ (fs : List SetupEffect). starts (fs ++ es) ≡ starts es)
      (has_orchestrator c.node_kind) (λ yes. refl) (λ no. refl)

set_up-IsSetUp :
    (can_init : Service → Bool) (c : Configuration)
    → IsTyped c
    → IsSetUpOrNot can_init (set_up can_init c)
unfolding set_up new_janus_ftl
set_up-IsSetUp can_init c typed =
    let service = new_service c.node_kind c in
    let orchestrated = init_orchestrator_connection c in
    let after : List SetupEffect =
      start_server c.rolling_size_avg_ms c.nack_lost_packets ∷ start_report_thread ∷ ready ∷ [] in
    let es = append_assoc orchestrated (init_service service ∷ []) after in
    if-cases (IsSetUpOrNot can_init) (can_init service)
      (λ yes. record {
        service = new_service-is_edge c.node_kind c;
        only =
            ap initialised es
            ∙ init_orchestrator_connection-initialised c (init_service service ∷ after);
        works = yes;
        started =
            ap starts es ∙ init_orchestrator_connection-starts c (init_service service ∷ after);
        connected =
            ap connects es
            ∙ init_orchestrator_connection-connects c (init_service service ∷ after) refl
            ∙ has_orchestrator_lem c.node_kind;
        client = has_orchestrator_lem c.node_kind;
        delay = typed.delay;
        limit = typed.max_bits;
      })
      (λ no. init_orchestrator_connection-starts c (init_service service ∷ []))

-- Whatever the environment holds and whatever service can be initialised: if there is no plugin then
-- the server was not started. If there is one, the server was started, and the plugin's service is the
-- only one that was initialised, which worked; it is that of an Edge node exactly if the node is one.
-- The orchestrator was connected to, and the plugin has a client of it, exactly if the node is not a
-- standalone one. The playout delay is in order and fits the header extension, and the limit fits 32
-- bits.
pub new_plugin-IsSetUp :
    (e : Environment) (can_init : Service → Bool) → IsSetUpOrNot can_init (new_plugin e can_init)
unfolding new_plugin
new_plugin-IsSetUp e can_init = go (load e) (load-IsTyped e)
  where
    go :
        (o : Option Configuration)
        → WhenSome IsTyped o
        → IsSetUpOrNot can_init (elim o [ none ↦ ([], none) | some c ↦ set_up can_init c ])
    go none h = refl
    go (some c) h = set_up-IsSetUp can_init c h
