-- ===== src/Sink/Latency/Ideal.antt =====
-- `pa_pal_sink_get_latency` of pal-sink.c against the ideal arithmetic.
use audioreach_pulseaudio_pl.Sink.Latency.{
  SessionTime, bytes_rendered, get_latency, join_words, latency_after, qtimer_of,
}
use audioreach_pulseaudio_pl.Base.{
  Bool-cases, arith, inl, inr, ltb, negsuc, pos, to_int64, ℕ, ◌%◌, ◌+◌, ◌-◌, ◌<◌, ◌^◌, ◌≡◌, ◌≤◌,
  if◌then◌else◌, ◌*◌, ◌/◌, ◌==◌,
}
use native.Mathlib.Nat.{mod-eq_of_lt}

bytes_rendered_lem :
    (usec_to_bytes : ℕ → ℕ) (abs_time session_time now : ℕ)
    → usec_to_bytes 0 ≡ 0
    → session_time < 2 ^ 63
    → now < 2 ^ 63
    → bytes_rendered usec_to_bytes abs_time session_time now
      ≡ usec_to_bytes (session_time + now - abs_time)
unfolding bytes_rendered
bytes_rendered_lem usec_to_bytes abs_time session_time now z s n = ground arith

to_int64_small : (n : ℕ) → n < 2 ^ 63 → to_int64 n ≡ pos n
to_int64_small n h = let e : n % 2 ^ 64 ≡ n = mod-eq_of_lt (omega arith) in rw e (ground arith)

to_int64_ahead :
    (written rendered : ℕ)
    → rendered ≤ written
    → written < 2 ^ 63
    → to_int64 (written + 2 ^ 64 - rendered) ≡ pos (written - rendered)
to_int64_ahead written rendered h w =
    let e : (written + 2 ^ 64 - rendered) % 2 ^ 64 ≡ written - rendered = omega arith in
    rw e (ground arith)

to_int64_behind :
    (written rendered : ℕ)
    → written < rendered
    → rendered < 2 ^ 63
    → to_int64 (written + 2 ^ 64 - rendered) ≡ negsuc (rendered - written - 1)
to_int64_behind written rendered h r =
    let e : (written + 2 ^ 64 - rendered) % 2 ^ 64 ≡ written + 2 ^ 64 - rendered = omega arith in
    rw e (ground arith)

latency_after_lem :
    (bytes_to_usec : ℕ → ℕ) (written rendered : ℕ)
    → bytes_to_usec 0 ≡ 0
    → ((n : ℕ) → bytes_to_usec n < 2 ^ 63)
    → written < 2 ^ 63
    → rendered < 2 ^ 63
    → latency_after bytes_to_usec written rendered ≡ bytes_to_usec (written - rendered)
unfolding latency_after
latency_after_lem bytes_to_usec written rendered z small w r =
    elim (Bool-cases (ltb written rendered)) [
      | inl e ↦
          let h : written < rendered = ground arith in
          let q : written - rendered ≡ 0 = omega arith in
          rw (to_int64_behind written rendered h r, q, z)
      | inr e ↦
          let h : rendered ≤ written = ground arith in
          let d = written - rendered in
          let m : d % 2 ^ 64 ≡ d = mod-eq_of_lt (omega arith) in
          let k : bytes_to_usec d % 2 ^ 64 ≡ bytes_to_usec d =
            mod-eq_of_lt (omega (arith, small d)) in
          rw (to_int64_ahead written rendered h w, m, to_int64_small (bytes_to_usec d) (small d), k)
            (latency_zero bytes_to_usec d z)
    ]
  where
    latency_zero :
        (bytes_to_usec : ℕ → ℕ) (d : ℕ)
        → bytes_to_usec 0 ≡ 0
        → (if d == 0 then 0 else bytes_to_usec d) ≡ bytes_to_usec d
    latency_zero bytes_to_usec d z = ground arith

qtimer_of_lem : (ticks : ℕ) → ticks < 2 ^ 59 → qtimer_of ticks ≡ ticks * 10 / 192
qtimer_of_lem ticks h =
    let e : ticks * 10 / 192 % 2 ^ 64 ≡ ticks * 10 / 192 = mod-eq_of_lt (omega arith) in
    rw (to_int64_small (ticks * 10) (omega arith), e)

-- Where PAL knows the time, none of the times and counts is 2^63 or more, and PulseAudio's
-- conversions are zero at zero and stay under 2^63, the latency is the time that takes what was
-- written less what was rendered, where the rendered time is the session's time now: the time of
-- the timestamp, forward to the counter's time, or back to it if the timestamp lies in the future.
-- Both differences stop at zero. The sink's session time is that of the timestamp.
pub get_latency_lem :
    (usec_to_bytes bytes_to_usec : ℕ → ℕ) (stime : SessionTime) (ticks written sess_time : ℕ)
    → usec_to_bytes 0 ≡ 0
    → bytes_to_usec 0 ≡ 0
    → ((n : ℕ) → usec_to_bytes n < 2 ^ 63)
    → ((n : ℕ) → bytes_to_usec n < 2 ^ 63)
    → written < 2 ^ 63
    → ticks < 2 ^ 59
    → join_words stime.session_msw stime.session_lsw < 2 ^ 63
    → let abs_time = join_words stime.absolute_msw stime.absolute_lsw in
      let session_time = join_words stime.session_msw stime.session_lsw in
      get_latency usec_to_bytes bytes_to_usec (pos 0) stime ticks written sess_time ≡ (
        bytes_to_usec (written - usec_to_bytes (session_time + ticks * 10 / 192 - abs_time)),
        session_time,
      )
unfolding get_latency
get_latency_lem usec_to_bytes bytes_to_usec stime ticks written sess_time zb zu sb su w t s =
    let abs_time = join_words stime.absolute_msw stime.absolute_lsw in
    let session_time = join_words stime.session_msw stime.session_lsw in
    let now : qtimer_of ticks ≡ ticks * 10 / 192 = qtimer_of_lem ticks t in
    rw (
      now,
      bytes_rendered_lem usec_to_bytes abs_time session_time (ticks * 10 / 192) zb s (omega arith),
      latency_after_lem bytes_to_usec written
          (usec_to_bytes (session_time + ticks * 10 / 192 - abs_time)) zu su w
          (sb (session_time + ticks * 10 / 192 - abs_time)),
    )
