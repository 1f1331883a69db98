-- ===== src/Sink/Rates/BufferSize.antt =====
-- `sink_get_buffer_size` of pal-sink.c.
use audioreach_pulseaudio_pl.Sink.Rates.{SampleFormat, SampleSpec, buffer_duration, get_buffer_size}
use native.Mathlib.Nat.{mul-le-mul_left, mul-le-mul_right, mod-eq_of_lt, le_trans}
use audioreach_pulseaudio_pl.Pal.{StreamType}
use audioreach_pulseaudio_pl.Base.{arith, ℕ, ◌*◌, ◌/◌, ◌≡◌, ◌≤◌, ◌%◌, ◌^◌}

duration_small : (type : StreamType) → buffer_duration type ≤ 25
duration_small type = ground arith

mul-le-mul : (a b c d : ℕ) → a ≤ c → b ≤ d → a * b ≤ c * d
mul-le-mul a b c d h k = le_trans (mul-le-mul_right b h) (mul-le-mul_left c k)

-- For a rate of at most 384000, at most 32 channels and samples of at most 8 bytes no product
-- wraps: before PulseAudio aligns it to a frame, the size is the number of bytes that the stream
-- type's duration, in milliseconds, takes.
pub get_buffer_size_lem :
    (sample_size : SampleFormat → ℕ) (frame_align : ℕ → SampleSpec → ℕ) (spec : SampleSpec)
    (type : StreamType)
    → spec.rate ≤ 384000
    → spec.channels ≤ 32
    → sample_size spec.format ≤ 8
    → get_buffer_size sample_size frame_align spec type
      ≡ frame_align
          (spec.rate * buffer_duration type * spec.channels * sample_size spec.format / 1000)
          spec
unfolding get_buffer_size
get_buffer_size_lem sample_size frame_align spec type r c s =
    let d = spec.rate * buffer_duration type in
    let n = sample_size spec.format in
    let h1 : d ≤ 9600000 =
      mul-le-mul spec.rate (buffer_duration type) 384000 25 r (duration_small type) in
    let h2 : d * spec.channels ≤ 307200000 = mul-le-mul d spec.channels 9600000 32 h1 c in
    let h3 : d * spec.channels * n ≤ 2457600000 =
      mul-le-mul (d * spec.channels) n 307200000 8 h2 s in
    let e1 : d % 2 ^ 32 ≡ d = mod-eq_of_lt (omega arith) in
    let e2 : d * spec.channels % 2 ^ 32 ≡ d * spec.channels = mod-eq_of_lt (omega arith) in
    let e3 : d * spec.channels * n % 2 ^ 64 ≡ d * spec.channels * n = mod-eq_of_lt (omega arith) in
    rw (e1, e2, e3)
