-- ===== src/Config.antt =====
-- src/Configuration.{h,cpp}: what the plugin reads from its environment. What `Load` throws is
-- `none`. `std::stoul` gives a number below 2 ^ 64; a narrower field keeps its low bits.
pub mod Delay
pub mod Loading
pub mod Types
mod Tests
use Prim.Native.String.{String}
use janus_ftl_plugin.Prelude.{
  ℕ, ◌+◌, ◌*◌, ◌/◌, ◌%◌, ◌^◌, Bool, true, false, not, Option, none, some, List, [], ◌∷◌, map, ltb,
  leb, ◌==◌, if◌then◌else◌,
}
use janus_ftl_plugin.Prelude.Text.{Text, codes, same}
use janus_ftl_plugin.Rtp.Packet.{Bytes}
use janus_ftl_plugin.FtlTypes.{tolower}
use janus_ftl_plugin.Util.{hex_string_to_byte_array}
use janus_ftl_plugin.Janus.{NodeKind}

infixl 5 ◌>>=◌
abbrev pub ◌>>=◌ {ℓ κ} : {A : Type ℓ} {B : Type κ} → Option A → (A → Option B) → Option B
none >>= f = none
some a >>= f = f a

pub data ServiceConnectionKind : Type 0 where
  dummy glimesh rest : ServiceConnectionKind

-- The standard library and the system.
pub record Environment : Type 0 where
  pub getenv : String → Option Text
  -- `none` for what it throws.
  pub stoul : Text → Option ℕ
  pub gethostname : Text
  -- The first word of the expansion.
  pub wordexp : Text → Text
  -- JANUS_PLAYOUT_DELAY_SUPPORT.
  pub playout_delay_support : Bool

pub record Configuration : Type 0 where
  pub my_hostname : Text
  pub node_kind : NodeKind
  pub orchestrator_hostname : Text
  pub orchestrator_port : ℕ
  pub orchestrator_psk : Bytes
  pub orchestrator_region_code : Text
  pub service_connection_kind : ServiceConnectionKind
  pub metadata_report_interval_ms : ℕ
  pub max_allowed_bits_per_second : ℕ
  pub rolling_size_avg_ms : ℕ
  pub nack_lost_packets : Bool
  -- In units of 10 ms.
  pub playout_delay : Option (ℕ × ℕ)
  pub dummy_hmac_key : Bytes
  pub dummy_preview_image_path : Text
  pub glimesh_service_hostname : Text
  pub glimesh_service_port : ℕ
  pub glimesh_service_use_https : Bool
  pub glimesh_service_client_id : Text
  pub glimesh_service_client_secret : Text
  pub rest_service_hostname : Text
  pub rest_service_port : ℕ
  pub rest_service_use_https : Bool
  pub rest_service_path_base : Text
  pub rest_service_auth_token : Text

-- A variable that is set replaces the default.
abbrev text_or : Option Text → Text → Text
text_or none default = default
text_or (some v) default = v

unfoldable pub number_or : Environment → Option Text → ℕ → ℕ → Option ℕ
number_or e none width default = some default
number_or e (some v) width default = e.stoul v >>= λ n. some (n % 2 ^ width)

-- A `bool` is whether the number is not 0.
pub flag_or : Environment → Option Text → Bool → Option Bool
flag_or e none default = some default
flag_or e (some v) default = e.stoul v >>= λ n. some (not (n == 0))

-- A kind that is not known leaves the default.
unfoldable node_kind_or : Option Text → NodeKind → NodeKind
unfolding tolower same
node_kind_or none default = default
node_kind_or (some v) default =
    let kind = map tolower v in
    if same kind (codes "standalone")
    then NodeKind.standalone
    else if same kind (codes "ingest")
    then NodeKind.ingest
    else if same kind (codes "edge")
    then NodeKind.edge
    else default

unfoldable service_connection_or : Option Text → ServiceConnectionKind → ServiceConnectionKind
unfolding tolower same
service_connection_or none default = default
service_connection_or (some v) default =
    let kind = map tolower v in
    if same kind (codes "dummy")
    then dummy
    else if same kind (codes "glimesh")
    then glimesh
    else if same kind (codes "rest")
    then rest
    else default

-- `hexStringToByteArray`, the same code as in Util.h: the key is in hexadecimal digits, and from a
-- character that is none on the bytes are 0.
unfoldable psk_or : Option Text → Bytes → Bytes
unfolding hex_string_to_byte_array
psk_or none default = default
psk_or (some v) default = hex_string_to_byte_array v

abbrev path_or : Environment → Option Text → Text → Text
path_or e none default = default
path_or e (some v) default = e.wordexp v

-- Milliseconds are signed 64-bit numbers: from 2 ^ 63 on a number is negative.
pub new_playout_delay : ℕ → ℕ → Option (ℕ × ℕ)
new_playout_delay min_ms max_ms =
    if leb (2 ^ 63) min_ms
    then none
    else if ltb 40950 min_ms
    then none
    else if leb (2 ^ 63) max_ms
    then none
    else if ltb 40950 max_ms
    then none
    else if ltb max_ms min_ms
    then none
    else some (min_ms / 10 % 2 ^ 16, max_ms / 10 % 2 ^ 16)

pub parse_playout_delay : Environment → Text → Text → Option (Option (ℕ × ℕ))
unfolding new_playout_delay
parse_playout_delay e min max = do
  min_ms ← e.stoul min
  max_ms ← e.stoul max
  delay ← new_playout_delay min_ms max_ms
  some (some delay)

-- Both variables are set, or neither; without support they are ignored.
pub load_playout_delay : Environment → Option Text → Option Text → Option (Option (ℕ × ℕ))
unfolding parse_playout_delay
load_playout_delay e none none = some none
load_playout_delay e (some min) none = if e.playout_delay_support then none else some none
load_playout_delay e none (some max) = if e.playout_delay_support then none else some none
load_playout_delay e (some min) (some max) =
    if e.playout_delay_support then parse_playout_delay e min max else some none

abbrev default_psk : Bytes
default_psk = 0 ∷ 1 ∷ 2 ∷ 3 ∷ 4 ∷ 5 ∷ 6 ∷ 7 ∷ 8 ∷ 9 ∷ 10 ∷ 11 ∷ 12 ∷ 13 ∷ 14 ∷ 15 ∷ []

pub load : Environment → Option Configuration
unfolding number_or flag_or node_kind_or service_connection_or psk_or load_playout_delay
load e = do
  orchestrator_port ← number_or e (e.getenv "FTL_ORCHESTRATOR_PORT") 16 8085
  interval ← number_or e (e.getenv "FTL_SERVICE_METADATAREPORTINTERVALMS") 64 4000
  max_bits ← number_or e (e.getenv "FTL_MAX_ALLOWED_BITS_PER_SECOND") 32 0
  rolling ← number_or e (e.getenv "FTL_ROLLING_SIZE_AVG_MS") 32 2000
  nack ← flag_or e (e.getenv "FTL_NACK_LOST_PACKETS") false
  delay ←
      load_playout_delay e (e.getenv "FTL_PLAYOUT_DELAY_MIN_MS")
        (e.getenv "FTL_PLAYOUT_DELAY_MAX_MS")
  glimesh_port ← number_or e (e.getenv "FTL_SERVICE_GLIMESH_PORT") 16 4000
  glimesh_https ← flag_or e (e.getenv "FTL_SERVICE_GLIMESH_HTTPS") false
  rest_port ← number_or e (e.getenv "FTL_SERVICE_REST_PORT") 16 4000
  rest_https ← flag_or e (e.getenv "FTL_SERVICE_REST_HTTPS") false
  some (record {
    my_hostname = text_or (e.getenv "FTL_HOSTNAME") e.gethostname;
    node_kind = node_kind_or (e.getenv "FTL_NODE_KIND") NodeKind.standalone;
    orchestrator_hostname = text_or (e.getenv "FTL_ORCHESTRATOR_HOSTNAME") [];
    orchestrator_port = orchestrator_port;
    orchestrator_psk = psk_or (e.getenv "FTL_ORCHESTRATOR_PSK") default_psk;
    orchestrator_region_code = text_or (e.getenv "FTL_ORCHESTRATOR_REGION_CODE") (codes "global");
    service_connection_kind = service_connection_or (e.getenv "FTL_SERVICE_CONNECTION") dummy;
    metadata_report_interval_ms = interval;
    max_allowed_bits_per_second = max_bits;
    rolling_size_avg_ms = rolling;
    nack_lost_packets = nack;
    playout_delay = delay;
    dummy_hmac_key =
        text_or (e.getenv "FTL_SERVICE_DUMMY_HMAC_KEY") (codes "aBcDeFgHiJkLmNoPqRsTuVwXyZ123456");
    dummy_preview_image_path =
        path_or e (e.getenv "FTL_SERVICE_DUMMY_PREVIEWIMAGEPATH")
          (e.wordexp (codes "~/.ftl/previews"));
    glimesh_service_hostname =
        text_or (e.getenv "FTL_SERVICE_GLIMESH_HOSTNAME") (codes "localhost");
    glimesh_service_port = glimesh_port;
    glimesh_service_use_https = glimesh_https;
    glimesh_service_client_id = text_or (e.getenv "FTL_SERVICE_GLIMESH_CLIENTID") [];
    glimesh_service_client_secret = text_or (e.getenv "FTL_SERVICE_GLIMESH_CLIENTSECRET") [];
    rest_service_hostname = text_or (e.getenv "FTL_SERVICE_REST_HOSTNAME") (codes "localhost");
    rest_service_port = rest_port;
    rest_service_use_https = rest_https;
    rest_service_path_base = text_or (e.getenv "FTL_SERVICE_REST_PATH_BASE") (codes "/");
    rest_service_auth_token = text_or (e.getenv "FTL_SERVICE_REST_AUTH_TOKEN") [];
  })
