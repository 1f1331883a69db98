-- ===== src/Sink/Rates/Tests.antt =====
-- The theorems on rates and buffer sizes at concrete rates.
use audioreach_pulseaudio_pl.Sink.Rates.{
  SampleFormat, SampleSpec, find_nearest_supported_sample_rate, get_buffer_size, s16le,
  supported_sink_rates,
}
use audioreach_pulseaudio_pl.Sink.Rates.Nearest.{
  find_nearest_supported_sample_rate_lem, none_between,
}
use audioreach_pulseaudio_pl.Sink.Rates.BufferSize.{get_buffer_size_lem}
use audioreach_pulseaudio_pl.Pal.{deep_buffer}
use audioreach_pulseaudio_pl.Base.{arith, mem, true, ℕ, ◌*◌, ◌-◌, ◌/◌, ◌%◌, ◌<◌, ◌≡◌, ◌≤◌, ◌⊎◌}

find_nearest_supported_sample_rate_example :
    let found = find_nearest_supported_sample_rate 50000 in
    (mem found supported_sink_rates ≡ true)
    × (((50000 < 8000) × (found ≡ 48000))
        ⊎ ((8000 ≤ 50000)
            × (found ≤ 50000)
            × (none_between found 50000 supported_sink_rates ≡ true)))
find_nearest_supported_sample_rate_example = find_nearest_supported_sample_rate_lem 50000

abbrev stereo : SampleSpec
stereo = record { rate = 48000; channels = 2; format = s16le }

abbrev two_bytes : SampleFormat → ℕ
two_bytes format = 2

abbrev whole_frames : ℕ → SampleSpec → ℕ
whole_frames size spec = size - size % 4

get_buffer_size_example :
    get_buffer_size two_bytes whole_frames stereo deep_buffer
    ≡ whole_frames (48000 * 20 * 2 * 2 / 1000) stereo
get_buffer_size_example =
    get_buffer_size_lem two_bytes whole_frames stereo deep_buffer (omega arith) (omega arith)
      (omega arith)
