-- ===== src/Sink/Restart.antt =====
-- `restart_pal_sink` of pal-sink.c: the change of a sink's format, which closes its stream and opens
-- another one.
--
-- `pa_sample_size_of_format` is PulseAudio's, the parameter `sample_size`. The decoder's parameters,
-- which the format of an encoding may set, go in and come out beside the sink's record.
pub mod Streams
mod Tests
use audioreach_pulseaudio_pl.Sink.Rates.{SampleFormat, SampleSpec, s24_32le}
use audioreach_pulseaudio_pl.Formats.{Encoding, SndDec, get_pal_format}
use audioreach_pulseaudio_pl.Ports.{avoid_bit_width}
use audioreach_pulseaudio_pl.Channel.{ChannelMap, channel_map_to_pal}
use audioreach_pulseaudio_pl.Sink.{Sink, SinkStates, close_pal_sink, open_pal_sink}
use audioreach_pulseaudio_pl.Pal.{ChInfo, History, MediaConfig, Pal, PalFormats}
use audioreach_pulseaudio_pl.Base.{
  Bool, Option, failed, false, if◌then◌else◌, negsuc, not, pos, true, ℕ, ℤ, ◌%◌, ◌&&◌, ◌*◌, ◌/◌,
  ◌==◌,
}

-- `flags & bit`, for a power of two.
abbrev pub has_bit : ℕ → ℕ → Bool
has_bit flags bit = flags / bit % 2 == 1

abbrev pub is_s24_32le : SampleFormat → Bool
is_s24_32le s24_32le = true
is_s24_32le _ = false

-- The switch on the bit width.
abbrev pub format_of_width : PalFormats → SampleFormat → ℕ → ℕ
format_of_width formats format width =
    if width == 32
    then (if is_s24_32le format then formats.pcm_s24_le else formats.pcm_s32_le)
    else if width == 24
    then formats.pcm_s24_3le
    else formats.default_pcm

-- The stream's media configuration, but for its channels.
abbrev pub new_media :
    PalFormats → (SampleFormat → ℕ) → Bool → SampleSpec → ℕ → MediaConfig → MediaConfig
new_media formats sample_size keeps_width ss pal_format m =
    if keeps_width
    then record m {
      bit_width = sample_size ss.format * 8;
      aud_fmt_id = format_of_width formats ss.format (sample_size ss.format * 8);
      sample_rate = ss.rate;
    }
    else record m { aud_fmt_id = pal_format; sample_rate = ss.rate }

-- The sink with the new media configuration and channels.
abbrev pub with_media : PalFormats → (SampleFormat → ℕ) → ℕ → SampleSpec → ℕ → ChInfo → Sink → Sink
with_media formats sample_size avoid ss pal_format info s =
    let keeps_width = not s.compressed && has_bit avoid avoid_bit_width in
    let m =
      new_media formats sample_size keeps_width ss pal_format
        s.stream_attributes.out_media_config in
    record s {
      stream_attributes = record (s.stream_attributes) {
        out_media_config = record m { ch_info = info };
      };
      pal_device = record (s.pal_device) {
        config = record (s.pal_device.config) { sample_rate = ss.rate };
      };
    }

-- The close of an opened sink whose thread's state is an opened one.
unfoldable pub close_first : Pal → SinkStates → ℕ → Sink → History → ℤ × Sink × History
close_first p st thread_state s t =
    if s.pal_sink_opened && st.is_opened thread_state then close_pal_sink p s t else (pos 0, s, t)

-- After the close: the format, the media configuration, the channels and the open.
unfoldable pub reopen :
    Pal
    → PalFormats
    → (SampleFormat → ℕ)
    → ℕ
    → ℕ
    → SampleSpec
    → ChannelMap
    → Sink
    → History
    → ℤ × Sink × History
reopen p formats sample_size avoid pal_format ss map s t =
    let (present, info) = channel_map_to_pal map s.stream_attributes.out_media_config.ch_info in
    let s1 = with_media formats sample_size avoid ss pal_format info s in
    let s2 = record s1 { compressed = not (pal_format == formats.pcm_s16_le) } in
    let opened = open_pal_sink p s2 t in
    if pal_format == 0 then (negsuc 0, s, t) else if present then opened else (negsuc 0, s1, t)

unfoldable pub restart_pal_sink :
    Pal
    → SinkStates
    → PalFormats
    → (SampleFormat → ℕ)
    → ℕ
    → ℕ
    → Encoding
    → SampleSpec
    → ChannelMap
    → ℕ
    → Option SndDec
    → Sink
    → History
    → ℤ × Sink × Option SndDec × History
restart_pal_sink p st formats sample_size avoid metadata encoding ss map thread_state dec s t =
    let (r1, s1, t1) = close_first p st thread_state (record s { restart_in_progress = true }) t in
    let (pal_format, dec') = get_pal_format formats metadata encoding dec in
    let (r2, s2, t2) = reopen p formats sample_size avoid pal_format ss map s1 t1 in
    if failed r1 then (r1, s1, dec, t1) else (r2, s2, dec', t2)
