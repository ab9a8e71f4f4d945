-- ===== src/FtlTypes/Codecs.antt =====
-- The names of codecs in src/Utilities/FtlTypes.h, printed and parsed back.
use janus_ftl_plugin.Prelude.{◌≡◌, refl, map}
use janus_ftl_plugin.FtlTypes.{
  AudioCodecKind, VideoCodecKind, tolower, parse_audio_codec, audio_codec_string, parse_video_codec,
  video_codec_string,
}

-- A codec that is printed is parsed back, an unsupported one too; a video codec also in lower
-- case.
parse-codec_string :
    (a : AudioCodecKind) (v : VideoCodecKind)
    → (parse_audio_codec (audio_codec_string a) ≡ a)
      × (parse_video_codec (video_codec_string v) ≡ v)
      × (parse_video_codec (map tolower (video_codec_string v)) ≡ v)
unfolding parse_audio_codec audio_codec_string parse_video_codec video_codec_string
parse-codec_string AudioCodecKind.opus VideoCodecKind.h264 = (refl, refl, refl)
parse-codec_string AudioCodecKind.opus VideoCodecKind.unsupported = (refl, refl, refl)
parse-codec_string AudioCodecKind.unsupported VideoCodecKind.h264 = (refl, refl, refl)
parse-codec_string AudioCodecKind.unsupported VideoCodecKind.unsupported = (refl, refl, refl)
