-- ===== src/Janus.antt =====
-- src/JanusFtl.{h,cpp}, src/JanusStream.{h,cpp}, src/JanusSession.{h,cpp} and
-- src/ServiceConnections/EdgeNodeServiceConnection.{h,cpp}: the plugin's streams, its viewers'
-- sessions, and the sessions that wait for a stream. A session is the number of its handle, which
-- is also its address: the Janus core creates one session for a handle. Every handler holds the
-- lock on these data, so that a handler is one function; what it calls outside of the plugin is a
-- list of effects, and what a call from outside returns is an argument.
pub mod Sdp
pub mod Streams
pub mod Edge
pub mod Plugin
pub mod Viewers
pub mod Attached
pub mod Valid
pub mod Watching
pub mod Leaving
pub mod Destroy
pub mod Safe
pub mod Kept
pub mod Calls
pub mod Kind
pub mod Asking
pub mod Refined
pub mod Edges
pub mod Subscribing
pub mod Rewatch
pub mod Started
pub mod Rtcp
pub mod Report
pub mod Reported
mod Tests
use janus_ftl_plugin.Prelude.{ℕ, Bool, true, false, Option, List, []}
use janus_ftl_plugin.Prelude.OrdMap.{OrdMap, OrdSet}
use janus_ftl_plugin.Prelude.Text.{Text}
use janus_ftl_plugin.Rtp.Packet.{Bytes}
use janus_ftl_plugin.Client.{ConnectMetadata}
use janus_ftl_plugin.FtlTypes.{MediaMetadata}

pub data NodeKind : Type 0 where
  standalone ingest edge : NodeKind

pub record JanusSession : Type 0 where
  pub is_started : Bool
  pub sdp_session_id : ℕ
  pub sdp_version : ℕ
  -- `MinDelay()` and `MaxDelay()`.
  pub playout_delay : Option (ℕ × ℕ)
  pub playout_delay_send_count : ℕ

pub record ActiveSession : Type 0 where
  pub watching_channel_id : Option ℕ
  pub session : JanusSession

-- The client is the number of its address.
pub record Relay : Type 0 where
  pub target_hostname : Text
  pub client : ℕ

pub record JanusStream : Type 0 where
  pub channel_id : ℕ
  pub stream_id : ℕ
  pub media_metadata : MediaMetadata
  pub viewer_sessions : OrdSet
  pub relays : List Relay

-- An Edge node's service connection is an EdgeNodeServiceConnection (`initServiceConnection`), whose
-- fields are the last two; on other nodes they are not used. `orchestration_client` tells whether
-- there is one.
pub record JanusFtl : Type 0 where
  pub node_kind : NodeKind
  pub orchestration_client : Bool
  pub playout_delay : Option (ℕ × ℕ)
  pub streams : OrdMap JanusStream
  pub sessions : OrdMap ActiveSession
  pub pending_viewer_sessions : OrdMap OrdSet
  pub stream_keys : OrdMap Bytes
  pub last_assigned_stream_id : ℕ

-- `initOrchestratorConnection` connects every node but a standalone one.
unfoldable pub has_orchestrator : NodeKind → Bool
has_orchestrator NodeKind.standalone = false
has_orchestrator kind = true

unfoldable pub new_janus_ftl : NodeKind → Option (ℕ × ℕ) → JanusFtl
unfolding has_orchestrator
new_janus_ftl kind delay = record {
  node_kind = kind;
  orchestration_client = has_orchestrator kind;
  playout_delay = delay;
  streams = [];
  sessions = [];
  pending_viewer_sessions = [];
  stream_keys = [];
  last_assigned_stream_id = 1;
}

pub data PluginEvent : Type 0 where
  pending : PluginEvent
  preparing : (sdp_offer : Text) → PluginEvent

-- `use_after_free` stands for a use of a session that has been destroyed.
pub data Effect : Type 0 where
  push_event : (handle : ℕ) (event : PluginEvent) → Effect
  relay_rtp : (handle : ℕ) (packet : Bytes) (video : Bool) (playout_delay : Option (ℕ × ℕ)) → Effect
  use_after_free : (handle : ℕ) → Effect
  connect_client :
      (hostname : Text) (channel_id : ℕ) (stream_key : Bytes) (metadata : ConnectMetadata) → Effect
  relay_packet : (client : ℕ) (packet : Bytes) → Effect
  stop_client : (client : ℕ) → Effect
  stop_stream : (channel_id stream_id : ℕ) → Effect
  end_service_stream : (stream_id : ℕ) → Effect
  publish : (is_publish : Bool) (channel_id stream_id : ℕ) → Effect
  subscribe : (channel_id : ℕ) (stream_key : Bytes) → Effect
  unsubscribe : (channel_id : ℕ) → Effect
