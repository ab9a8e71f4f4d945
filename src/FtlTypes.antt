-- ===== src/FtlTypes.antt =====
-- src/Utilities/FtlTypes.h: the codecs and the metadata of a stream. A string is its bytes.
pub mod Codecs
use janus_ftl_plugin.Prelude.{ℕ, ◌+◌, Bool, false, ◌&&◌, List, [], ◌∷◌, map, leb, if◌then◌else◌}
use janus_ftl_plugin.Prelude.Text.{Text, codes, same}

pub data AudioCodecKind : Type 0 where
  unsupported opus : AudioCodecKind

pub data VideoCodecKind : Type 0 where
  unsupported h264 : VideoCodecKind

-- `std::tolower` of a byte in the "C" locale.
unfoldable pub tolower : ℕ → ℕ
tolower c = if leb b'A' c && leb c b'Z' then c + 32 else c

unfoldable pub parse_audio_codec : Text → AudioCodecKind
unfolding same tolower
parse_audio_codec codec =
    if same (map tolower codec) (codes "opus")
    then AudioCodecKind.opus
    else AudioCodecKind.unsupported

unfoldable pub audio_codec_string : AudioCodecKind → Text
audio_codec_string AudioCodecKind.opus = codes "opus"
audio_codec_string AudioCodecKind.unsupported = []

unfoldable pub parse_video_codec : Text → VideoCodecKind
unfolding same tolower
parse_video_codec codec =
    if same (map tolower codec) (codes "h264")
    then VideoCodecKind.h264
    else VideoCodecKind.unsupported

unfoldable pub video_codec_string : VideoCodecKind → Text
video_codec_string VideoCodecKind.h264 = codes "H264"
video_codec_string VideoCodecKind.unsupported = []

pub record MediaMetadata : Type 0 where
  pub vendor_name : Text
  pub vendor_version : Text
  pub has_video : Bool
  pub has_audio : Bool
  pub video_codec : VideoCodecKind
  pub audio_codec : AudioCodecKind
  pub video_width : ℕ
  pub video_height : ℕ
  pub video_ssrc : ℕ
  pub audio_ssrc : ℕ
  pub video_payload_type : ℕ
  pub audio_payload_type : ℕ

-- `MediaMetadata mediaMetadata {}`.
abbrev pub no_metadata : MediaMetadata
no_metadata = record {
  vendor_name = [];
  vendor_version = [];
  has_video = false;
  has_audio = false;
  video_codec = VideoCodecKind.unsupported;
  audio_codec = AudioCodecKind.unsupported;
  video_width = 0;
  video_height = 0;
  video_ssrc = 0;
  audio_ssrc = 0;
  video_payload_type = 0;
  audio_payload_type = 0;
}
