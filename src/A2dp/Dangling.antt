-- ===== src/A2dp/Dangling.antt =====
-- A volume request after a start that PAL refused.
use audioreach_pulseaudio_pl.Loopback.{LoopbackConfig, PortConfig}
use audioreach_pulseaudio_pl.Pal.Live.{live, safe}
use audioreach_pulseaudio_pl.Volume.{Floats, set_volume}
use audioreach_pulseaudio_pl.Base.{arith, failed, false, mem, some, true, ℕ, ◌∷◌, ◌≡◌}
use audioreach_pulseaudio_pl.A2dp.{
  Btsink, Junk, attributes, devices, loopback_create, loopback_set_volume, start_btsink,
  start_ports, start_stream,
}
use audioreach_pulseaudio_pl.Pal.{History, Pal, PalFormats, stream_open, stream_start}

-- Where an idle session opens its stream and PAL then refuses to start it, the request to create the
-- session fails, and the record keeps the handle of the stream that was closed. If that handle names
-- no stream that was open before, a volume request that follows is made on a closed stream.
pub set_volume-after-refusal :
    (p : Pal) (f : Floats) (formats : PalFormats) (junk : Junk) (conf : LoopbackConfig)
    (i o : PortConfig) (vol : ℕ) (b : Btsink) (t : History)
    → b.is_running ≡ false
    → conf.in_port ≡ some i
    → conf.out_port ≡ some o
    → failed (p.rc t (stream_open (attributes formats junk i o) (devices formats junk i o))) ≡ false
    → failed (
        p.rc
          (stream_open (attributes formats junk i o) (devices formats junk i o) ∷ t)
          (stream_start (some (p.handle t))))
      ≡ true
    → mem (p.handle t) (live p t) ≡ false
    → ((h : History) → p.allocates h ≡ true)
    → let (r, b', t') = loopback_create p f formats junk conf b t in
      (failed r ≡ true)
      × (b'.stream_handle ≡ some (p.handle t))
      × (safe p (loopback_set_volume p f conf vol b' t').2 ≡ false)
unfolding loopback_create start_btsink start_ports start_stream loopback_set_volume set_volume
set_volume-after-refusal p f formats junk conf i o vol b t idle ei eo e1 e2 fresh alloc =
    ground (arith, alloc (loopback_create p f formats junk conf b t).2)
