-- ===== src/Source/Rates.antt =====
-- The sample rates, formats, buffer sizes, encodings and stream types of pal-source.c and
-- inc/pal-source.h. The plugin is built with its compressed-audio support.
use audioreach_pulseaudio_pl.Formats.{
  Encoding, encoding_pcm, unknown_4x_iec61937, unknown_hbr_iec61937, unknown_iec61937,
}
use audioreach_pulseaudio_pl.Sink.Rates.{
  SampleFormat, SampleSpec, buffer_duration, s16le, s24_32le, s24le, s32le,
}
use audioreach_pulseaudio_pl.Pal.{
  StreamType, compressed_stream, deep_buffer, generic, low_latency, raw, voip_rx, voip_tx,
}
use audioreach_pulseaudio_pl.Base.{
  Bool, List, Option, String, [], false, if◌then◌else◌, ltb, mem, none, some, true, ℕ, ◌%◌, ◌*◌,
  ◌/◌, ◌==◌, ◌^◌, ◌||◌, ◌∷◌,
}
use text.Mathlib.Text.{◌==◌ as str_eq}

abbrev pub supported_source_rates : List ℕ
supported_source_rates =
    8000 ∷ 11025 ∷ 16000 ∷ 22050 ∷ 32000 ∷ 44100 ∷ 48000 ∷ 88200 ∷ 96000 ∷ 176400 ∷ 192000 ∷ 352800
    ∷ 384000 ∷ []

-- `pa_pal_source_is_supported_sample_rate`, and the same loop of `pa_pal_source_reconfigure_cb`
abbrev pub is_supported_source_rate : ℕ → Bool
is_supported_source_rate rate = mem rate supported_source_rates

-- `source_check_supported_format` over `supported_source_formats`
abbrev pub source_check_supported_format : SampleFormat → Bool
source_check_supported_format s16le = true
source_check_supported_format s32le = true
source_check_supported_format s24le = true
source_check_supported_format s24_32le = true
source_check_supported_format _ = false

-- The search loop over the rates that are left.
unfoldable pub nearest_source_from : ℕ → ℕ → List ℕ → ℕ
nearest_source_from sample_rate nearest [] = nearest
nearest_source_from sample_rate nearest (rate ∷ rates) =
    let below = nearest_source_from sample_rate rate rates in
    let kept = nearest_source_from sample_rate nearest rates in
    if sample_rate == rate then sample_rate else if ltb rate sample_rate then below else kept

-- PA_DEFAULT_SOURCE_RATE is 48000.
unfoldable pub nearest_source_rate : ℕ → ℕ
nearest_source_rate sample_rate = nearest_source_from sample_rate 48000 supported_source_rates

-- `source_get_buffer_size`, with PulseAudio's `pa_sample_size_of_format` and `pa_frame_align`
unfoldable pub source_get_buffer_size :
    (SampleFormat → ℕ) → (ℕ → SampleSpec → ℕ) → SampleSpec → StreamType → ℕ
source_get_buffer_size sample_size frame_align spec type =
    let samples = (spec.rate * buffer_duration type % 2 ^ 32) * spec.channels % 2 ^ 32 in
    frame_align (samples * sample_size spec.format % 2 ^ 64 / 1000) spec

abbrev pub source_name_from_type : StreamType → Option String
source_name_from_type raw = some "regular"
source_name_from_type low_latency = some "low-latency"
source_name_from_type compressed_stream = some "compress"
source_name_from_type voip_tx = some "voip_tx"
source_name_from_type voip_rx = some "voip_Rx"
source_name_from_type deep_buffer = some "deep-buffer"
source_name_from_type _ = none

unfoldable pub is_supported_source_type : String → Bool
is_supported_source_type source_type =
    str_eq source_type "low-latency"
    || (str_eq source_type "regular"
        || (str_eq source_type "compress" || str_eq source_type "passthrough"))

abbrev pub is_supported_source_encoding : Encoding → Bool
is_supported_source_encoding encoding_pcm = true
is_supported_source_encoding unknown_iec61937 = true
is_supported_source_encoding unknown_4x_iec61937 = true
is_supported_source_encoding unknown_hbr_iec61937 = true
is_supported_source_encoding _ = false

unfoldable pub source_type_from_string : String → StreamType
source_type_from_string stream_type =
    if str_eq stream_type "PAL_STREAM_LOW_LATENCY"
    then low_latency
    else if str_eq stream_type "PAL_STREAM_DEEP_BUFFER"
    then deep_buffer
    else if str_eq stream_type "PAL_STREAM_COMPRESSED"
    then compressed_stream
    else if str_eq stream_type "PAL_STREAM_VOIP_TX"
    then voip_tx
    else if str_eq stream_type "PAL_STREAM_VOIP_RX"
    then voip_rx
    else if str_eq stream_type "PAL_STREAM_RAW"
    then raw
    else generic
