-- ===== src/Sink/Rates.antt =====
-- The sample rates, formats and buffer sizes of pal-sink.c, and the names of the stream types.
pub mod Nearest
pub mod BufferSize
mod Tests
use audioreach_pulseaudio_pl.Pal.{
  StreamType, compressed_stream, deep_buffer, generic, low_latency, voip_rx, voip_tx,
}
use audioreach_pulseaudio_pl.Base.{
  Bool, List, Option, String, [], if◌then◌else◌, ltb, mem, none, some, ℕ, ◌%◌, ◌*◌, ◌/◌, ◌==◌, ◌^◌,
  ◌∷◌,
}
use text.Mathlib.Text.{◌==◌ as str_eq}

abbrev pub supported_sink_rates : List ℕ
supported_sink_rates =
    8000 ∷ 11025 ∷ 16000 ∷ 22050 ∷ 32000 ∷ 44100 ∷ 48000 ∷ 88200 ∷ 96000 ∷ 176400 ∷ 192000 ∷ 352800
    ∷ 384000 ∷ []

-- PA_DEFAULT_SINK_RATE
abbrev pub default_sink_rate : ℕ
default_sink_rate = 48000

-- The search loop of `pa_pal_sink_find_nearest_supported_sample_rate` over the rates that are left.
unfoldable pub nearest_from : ℕ → ℕ → List ℕ → ℕ
nearest_from sample_rate nearest [] = nearest
nearest_from sample_rate nearest (rate ∷ rates) =
    let below = nearest_from sample_rate rate rates in
    let kept = nearest_from sample_rate nearest rates in
    if sample_rate == rate then sample_rate else if ltb rate sample_rate then below else kept

unfoldable pub find_nearest_supported_sample_rate : ℕ → ℕ
find_nearest_supported_sample_rate sample_rate =
    nearest_from sample_rate default_sink_rate supported_sink_rates

-- The sample formats of PulseAudio that the plugin names, and the others by a number.
pub data SampleFormat : Type 0 where
  u8 alaw s16le s16be s24le s24be s24_32le s24_32be s32le s32be float32le : SampleFormat
  other_format : ℕ → SampleFormat

abbrev pub find_nearest_supported_pa_format : SampleFormat → SampleFormat
find_nearest_supported_pa_format s16le = s16le
find_nearest_supported_pa_format u8 = s16le
find_nearest_supported_pa_format alaw = s16le
find_nearest_supported_pa_format s16be = s16le
find_nearest_supported_pa_format s24le = s24le
find_nearest_supported_pa_format s24be = s24le
find_nearest_supported_pa_format s24_32le = s24le
find_nearest_supported_pa_format s24_32be = s24le
find_nearest_supported_pa_format s32le = s32le
find_nearest_supported_pa_format float32le = s32le
find_nearest_supported_pa_format s32be = s32le
find_nearest_supported_pa_format (other_format n) = s16le

-- `pa_sample_spec`
pub record SampleSpec : Type 0 where
  pub rate : ℕ
  pub channels : ℕ
  pub format : SampleFormat

abbrev pub buffer_duration : StreamType → ℕ
buffer_duration deep_buffer = 20
buffer_duration low_latency = 5
buffer_duration _ = 25

-- The product of the rate, the duration and the channels is a `uint32_t`; with the sample's size it
-- is a `size_t`. `pa_sample_size_of_format` and `pa_frame_align` are PulseAudio's.
unfoldable pub get_buffer_size :
    (SampleFormat → ℕ) → (ℕ → SampleSpec → ℕ) → SampleSpec → StreamType → ℕ
get_buffer_size sample_size frame_align spec type =
    let samples = (spec.rate * buffer_duration type % 2 ^ 32) * spec.channels % 2 ^ 32 in
    frame_align (samples * sample_size spec.format % 2 ^ 64 / 1000) spec

abbrev pub get_name_from_type : StreamType → Option String
get_name_from_type low_latency = some "low_latency"
get_name_from_type deep_buffer = some "deep_buffer"
get_name_from_type compressed_stream = some "offload"
get_name_from_type voip_tx = some "voip_tx"
get_name_from_type voip_rx = some "voip_rx"
get_name_from_type generic = some "direct_pcm"
get_name_from_type _ = none

unfoldable pub get_type_from_string : String → StreamType
get_type_from_string stream_type =
    if str_eq stream_type "PAL_STREAM_LOW_LATENCY"
    then low_latency
    else if str_eq stream_type "PAL_STREAM_DEEP_BUFFER"
    then deep_buffer
    else if str_eq stream_type "PAL_STREAM_VOIP_TX"
    then voip_tx
    else if str_eq stream_type "PAL_STREAM_VOIP_RX"
    then voip_rx
    else if str_eq stream_type "PAL_STREAM_COMPRESSED"
    then compressed_stream
    else generic
