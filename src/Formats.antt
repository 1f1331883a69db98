-- ===== src/Formats.antt =====
-- modules/pa-pal-plugins/module-pal-card/src/pal-utils.c: the PAL format of a PulseAudio encoding,
-- with the global `compress_metadata` that the negotiated format sets for AAC; and the encodings of
-- inc/pal-sink.h that a sink supports.
pub mod Aac
mod Tests
use audioreach_pulseaudio_pl.Pal.{PalFormats}
use audioreach_pulseaudio_pl.Base.{
  Bool, Option, String, failed, false, if◌then◌else◌, none, pos, some, true, ℕ, ℤ,
}
use text.Mathlib.Text.{◌==◌ as str_eq}

-- The constants PA_ENCODING_* that the plugin names, and the others by a number.
pub data Encoding : Type 0 where
  encoding_any encoding_pcm encoding_mpeg encoding_aac encoding_dsd : Encoding
  unknown_iec61937 unknown_4x_iec61937 unknown_hbr_iec61937 : Encoding
  other_encoding : ℕ → Encoding

-- The fields of `pal_snd_dec_t` that the plugin writes.
pub record SndDec : Type 0 where
  pub audio_obj_type : ℕ
  pub pce_bits_size : ℕ

-- AAC_AOT_PS
abbrev pub aac_aot_ps : ℕ
aac_aot_ps = 29

-- What the property "stream-format" of the format says, by `pa_format_info_get_prop_string`, of
-- PulseAudio: its code and the text. The result is the code and the new metadata.
unfoldable pub set_pal_metadata : PalFormats → ℤ → String → Encoding → ℕ → ℤ × ℕ
set_pal_metadata formats rc stream_format encoding_aac metadata =
    if failed rc
    then (rc, metadata)
    else if str_eq stream_format "adts"
    then (rc, formats.aac_adts)
    else (rc, formats.aac)
set_pal_metadata formats rc stream_format encoding metadata = (pos 0, metadata)

-- With a decoder's parameters, or NULL.
unfoldable pub get_pal_format : PalFormats → ℕ → Encoding → Option SndDec → ℕ × Option SndDec
get_pal_format formats metadata encoding_any dec = (formats.default_pcm, dec)
get_pal_format formats metadata encoding_pcm dec = (formats.pcm_s16_le, dec)
get_pal_format formats metadata encoding_mpeg dec = (formats.mp3, dec)
get_pal_format formats metadata encoding_aac none = (0, none)
get_pal_format formats metadata encoding_aac (some dec) =
    (metadata, some (record dec { audio_obj_type = aac_aot_ps; pce_bits_size = 0 }))
get_pal_format formats metadata encoding dec = (0, dec)

abbrev pub is_supported_encoding : Encoding → Bool
is_supported_encoding encoding_pcm = true
is_supported_encoding encoding_mpeg = true
is_supported_encoding encoding_aac = true
is_supported_encoding _ = false
