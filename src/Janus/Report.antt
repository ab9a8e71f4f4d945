-- ===== src/Janus/Report.antt =====
-- `serviceReportThreadBody` of src/JanusFtl.cpp: one pass over the active streams. The decoder and
-- the answers of the service are parameters, and so is the state when the lock is held for the second
-- time.
use janus_ftl_plugin.Prelude.{
  ℕ, ◌%◌, ◌^◌, Bool, true, false, ◌&&◌, Option, none, some, List, [], ◌∷◌, ◌++◌, ltb, if◌then◌else◌,
  length,
}
use janus_ftl_plugin.Prelude.OrdMap.{find}
use janus_ftl_plugin.Prelude.Text.{Text}
use janus_ftl_plugin.Rtp.Packet.{Bytes}
use janus_ftl_plugin.FtlTypes.{VideoCodecKind, video_codec_string, audio_codec_string}
use janus_ftl_plugin.Janus.{JanusStream, JanusFtl, Effect}
use janus_ftl_plugin.Janus.Streams.{get_viewer_count}
use janus_ftl_plugin.Janus.Plugin.{Result, end_stream}

-- What the server says of a stream; the key frame is its codec and its packets.
pub record StreamInfo : Type 0 where
  pub channel_id : ℕ
  pub stream_id : ℕ
  pub duration_seconds : ℕ
  pub packets_received : ℕ
  pub packets_nacked : ℕ
  pub packets_lost : ℕ
  pub rolling_average_bitrate_bps : ℕ
  pub keyframe_codec : VideoCodecKind
  pub keyframe_packets : List Bytes

pub record StreamMetadata : Type 0 where
  pub ingest_server_hostname : Text
  pub stream_time_seconds : ℕ
  pub num_active_viewers : ℕ
  pub current_source_bitrate_bps : ℕ
  pub num_packets_received : ℕ
  pub num_packets_nacked : ℕ
  pub num_packets_lost : ℕ
  pub streamer_to_ingest_ping_ms : ℕ
  pub streamer_client_vendor_name : Text
  pub streamer_client_vendor_version : Text
  pub video_codec : Text
  pub audio_codec : Text
  pub video_width : ℕ
  pub video_height : ℕ

pub data ServiceResponse : Type 0 where
  ok end_stream_requested failed : ServiceResponse

pub record Service : Type 0 where
  pub my_hostname : Text
  pub max_allowed_bits_per_second : ℕ
  -- The answer to an update of a stream's metadata; `failed` is an error.
  pub update_stream_metadata : ℕ → StreamMetadata → ServiceResponse
  -- The H264 decoder, which may throw.
  pub read_video_dimensions : List Bytes → Option (ℕ × ℕ)
  pub generate_jpeg_image : List Bytes → Option Bytes

pub data ReportEffect : Type 0 where
  stop : (channel_id stream_id : ℕ) → ReportEffect
  update : (stream_id : ℕ) (metadata : StreamMetadata) → ReportEffect
  preview : (stream_id : ℕ) (jpeg : Bytes) → ReportEffect

-- `initVideoDecoders` has a decoder for H264 only.
unfoldable has_decoder : VideoCodecKind → Bool
has_decoder VideoCodecKind.h264 = true
has_decoder VideoCodecKind.unsupported = false

unfoldable pub exceeds : Service → StreamInfo → Bool
exceeds l i =
    ltb 0 l.max_allowed_bits_per_second
    && ltb l.max_allowed_bits_per_second i.rolling_average_bitrate_bps

unfoldable can_decode : StreamInfo → Bool
unfolding has_decoder
can_decode i = ltb 0 (length i.keyframe_packets) && has_decoder i.keyframe_codec

abbrev or_else {ℓ} : {A : Type ℓ} → Option A → A → A
or_else none a = a
or_else (some b) a = b

unfoldable pub stream_metadata : Service → StreamInfo → JanusStream → StreamMetadata
unfolding can_decode get_viewer_count video_codec_string audio_codec_string
stream_metadata l i st =
    let m = st.media_metadata in
    let fallback : ℕ × ℕ = (m.video_width, m.video_height) in
    let size : ℕ × ℕ =
      if can_decode i
      then or_else (l.read_video_dimensions i.keyframe_packets) fallback
      else fallback in
    record {
      ingest_server_hostname = l.my_hostname;
      stream_time_seconds = i.duration_seconds;
      num_active_viewers = get_viewer_count st % 2 ^ 32;
      current_source_bitrate_bps = i.rolling_average_bitrate_bps;
      num_packets_received = i.packets_received;
      num_packets_nacked = i.packets_nacked;
      num_packets_lost = i.packets_lost;
      streamer_to_ingest_ping_ms = 0;
      streamer_client_vendor_name = m.vendor_name;
      streamer_client_vendor_version = m.vendor_version;
      video_codec = video_codec_string m.video_codec;
      audio_codec = audio_codec_string m.audio_codec;
      video_width = size.0;
      video_height = size.1;
    }

abbrev preview_of : ℕ → Option Bytes → List ReportEffect
preview_of stream none = []
preview_of stream (some jpeg) = preview stream jpeg ∷ []

-- What follows the service's answer: the effects, and whether the stream is to end.
unfoldable pub after_update : Service → StreamInfo → ServiceResponse → List ReportEffect × Bool
unfolding can_decode
after_update l i ok =
    let images = preview_of i.stream_id (l.generate_jpeg_image i.keyframe_packets) in
    (if can_decode i then images else [], false)
after_update l i end_stream_requested = (stop i.channel_id i.stream_id ∷ [], true)
after_update l i failed = (stop i.channel_id i.stream_id ∷ [], true)

-- A stream that the plugin does not know is not reported.
unfoldable pub report_known : Service → StreamInfo → Option JanusStream → List ReportEffect × Bool
unfolding stream_metadata after_update
report_known l i none = ([], false)
report_known l i (some st) =
    let m = stream_metadata l i st in
    let (es, ends) = after_update l i (l.update_stream_metadata i.stream_id m) in
    (update i.stream_id m ∷ es, ends)

unfoldable pub report_stream : Service → StreamInfo → JanusFtl → List ReportEffect × Bool
unfolding exceeds report_known find
report_stream l i s =
    if exceeds l i
    then (stop i.channel_id i.stream_id ∷ [], true)
    else report_known l i (find i.channel_id s.streams)

-- The effects, and the streams that have been stopped.
unfoldable pub report_streams :
    Service → List StreamInfo → JanusFtl → List ReportEffect × List StreamInfo
unfolding report_stream
report_streams l [] s = ([], [])
report_streams l (i ∷ is) s =
    let (es, ends) = report_stream l i s in
    let (es', stopped) = report_streams l is s in (es ++ es', if ends then i ∷ stopped else stopped)

unfoldable pub end_streams : List StreamInfo → JanusFtl → Result
unfolding end_stream
end_streams [] s = ([], s)
end_streams (i ∷ is) s =
    let (es, s') = end_stream i.channel_id i.stream_id s in
    let (es', s'') = end_streams is s' in (es ++ es', s'')

-- The streams are looked at under the lock first, and those that have been stopped end under it last.
-- In between it is not held, and the state may have become another one, `later`.
unfoldable pub report_pass :
    Service → List StreamInfo → JanusFtl → JanusFtl → List ReportEffect × List Effect × JanusFtl
unfolding report_streams end_streams
report_pass l is s later =
    let (es, stopped) = report_streams l is s in
    let (es', s') = end_streams stopped later in (es, es', s')
