-- ===== src/Sink/Latency.antt =====
-- `pa_pal_sink_get_latency` of pal-sink.c: how long the bytes written will take to play.
pub mod Ideal
mod Tests
use audioreach_pulseaudio_pl.Base.{
  if◌then◌else◌, is_negative, ltb, pos, negsuc, to_int64, to_uint64, ℕ, ℤ, succeeded, ◌%◌, ◌*◌, ◌+◌,
  ◌-◌, ◌/◌, ◌^◌, arith, ◌≡◌, ◌<◌, ◌==◌,
}

-- `struct pal_session_time`, by the halves of its two times.
pub record SessionTime : Type 0 where
  pub absolute_msw : ℕ
  pub absolute_lsw : ℕ
  pub session_msw : ℕ
  pub session_lsw : ℕ

-- `(uint64_t)msw << 32 | lsw`
abbrev pub join_words : ℕ → ℕ → ℕ
join_words msw lsw = msw * 2 ^ 32 + lsw

-- `ticks * 10 / 192` in `int64_t`, as a `uint64_t`.
abbrev divide_by : ℤ → ℕ → ℤ
divide_by (pos n) d = pos (n / d)
divide_by (negsuc n) d = let q = (n + 1) / d in if q == 0 then pos 0 else negsuc (q - 1)

abbrev pub qtimer_of : ℕ → ℕ
qtimer_of ticks = to_uint64 (divide_by (to_int64 (ticks * 10)) 192)

-- The bytes that PAL has rendered by now; `usec_to_bytes` is PulseAudio's, for the sink's spec.
unfoldable pub bytes_rendered : (ℕ → ℕ) → ℕ → ℕ → ℕ → ℕ
bytes_rendered usec_to_bytes abs_time session_time cur_qtimer =
    if ltb cur_qtimer abs_time
    then (if ltb (abs_time - cur_qtimer) session_time
        then usec_to_bytes (session_time - (abs_time - cur_qtimer))
        else 0)
    else usec_to_bytes ((session_time + (cur_qtimer - abs_time)) % 2 ^ 64)

-- The latency where the timestamp is known, and the reset of a negative one.
unfoldable pub latency_after : (ℕ → ℕ) → ℕ → ℕ → ℕ
latency_after bytes_to_usec written rendered =
    let delta = to_int64 (written + 2 ^ 64 - rendered) in
    let latency = to_int64 (bytes_to_usec (to_uint64 delta)) in
    if is_negative delta
    then 0
    else if to_uint64 delta == 0
    then 0
    else if is_negative latency
    then 0
    else to_uint64 latency

-- The code of `pal_get_timestamp`, the times it delivers, the counter's ticks, and the bytes
-- written. The result is the latency and the sink's `sess_time`.
unfoldable pub get_latency : (ℕ → ℕ) → (ℕ → ℕ) → ℤ → SessionTime → ℕ → ℕ → ℕ → ℕ × ℕ
get_latency usec_to_bytes bytes_to_usec rc stime ticks written sess_time =
    let abs_time = join_words stime.absolute_msw stime.absolute_lsw in
    let session_time = join_words stime.session_msw stime.session_lsw in
    let unknown = to_int64 (bytes_to_usec written) in
    if succeeded rc
    then (
      latency_after bytes_to_usec written
          (bytes_rendered usec_to_bytes abs_time session_time (qtimer_of ticks)),
      session_time,
    )
    else if is_negative unknown
    then (0, sess_time)
    else (to_uint64 unknown, sess_time)
