-- ===== src/Sink/Latency/Tests.antt =====
-- The theorem on the latency at a concrete time.
use audioreach_pulseaudio_pl.Sink.Latency.{SessionTime, get_latency}
use audioreach_pulseaudio_pl.Sink.Latency.Ideal.{get_latency_lem}
use audioreach_pulseaudio_pl.Base.{arith, pos, refl, ℕ, ◌%◌, ◌*◌, ◌+◌, ◌-◌, ◌/◌, ◌<◌, ◌^◌, ◌≡◌}

abbrev stime : SessionTime
stime = record { absolute_msw = 0; absolute_lsw = 200; session_msw = 0; session_lsw = 100 }

abbrev convert : ℕ → ℕ
convert n = n % 1000

convert_small : (n : ℕ) → convert n < 2 ^ 63
convert_small n = omega arith

get_latency_example :
    get_latency convert convert (pos 0) stime 3000 500 0
    ≡ (convert (500 - convert (100 + 3000 * 10 / 192 - 200)), 100)
get_latency_example =
    get_latency_lem convert convert stime 3000 500 0 refl refl convert_small convert_small
      (omega arith) (omega arith) (omega arith)
