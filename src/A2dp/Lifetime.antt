-- ===== src/A2dp/Lifetime.antt =====
-- One start and one stop of the A2DP sink of bt-a2dp-split.c.
use audioreach_pulseaudio_pl.Loopback.{LoopbackConfig, PortConfig}
use audioreach_pulseaudio_pl.Pal.Live.{live, safe}
use audioreach_pulseaudio_pl.Volume.{Floats}
use audioreach_pulseaudio_pl.Volume.Laws.{live-set_volume, safe-set_volume}
use audioreach_pulseaudio_pl.Base.{
  List, Option, arith, failed, false, none, refl, some, true, ℕ, ℤ, ◌∷◌, ◌≡◌, inl, inr, ◌⊎◌, pos,
}
use audioreach_pulseaudio_pl.A2dp.{
  Btsink, Junk, attributes, devices, start_btsink, start_ports, start_stream, stop_btsink,
}
use audioreach_pulseaudio_pl.Pal.{
  History, Pal, PalDevice, PalFormats, StreamAttributes, stream_open, stream_start, stream_close,
  stream_stop,
}

-- What a start that ended with the given code leaves.
abbrev pub Outcome : Pal → Btsink → History → ℤ × Btsink × History → Type 0
Outcome p b t (r, b', t') =
    ((failed r ≡ true) × (live p t' ≡ live p t) × (b'.is_running ≡ b.is_running)
      ⊎ (failed r ≡ false)
        × (live p t' ≡ p.handle t ∷ live p t)
        × (b'.stream_handle ≡ some (p.handle t))
        × (b'.is_running ≡ true))
    × (safe p t' ≡ safe p t)

start_stream-Outcome :
    (p : Pal) (f : Floats) (a : StreamAttributes) (ds : List PalDevice) (n : ℕ) (b : Btsink)
    (t : History)
    → Outcome p b t (start_stream p f a ds n b t)
unfolding start_stream
start_stream-Outcome p f a ds n b t = ground (
  arith,
  live-set_volume p f (some (p.handle t)) n b.volume
      (stream_start (some (p.handle t)) ∷ stream_open a ds ∷ t),
  safe-set_volume p f (some (p.handle t)) n b.volume
      (stream_start (some (p.handle t)) ∷ stream_open a ds ∷ t),
)

start_ports-Outcome :
    (p : Pal) (f : Floats) (formats : PalFormats) (junk : Junk) (b : Btsink)
    (i o : Option PortConfig) (t : History)
    → Outcome p b t (start_ports p f formats junk b i o t)
unfolding start_ports
start_ports-Outcome p f formats junk b (some i) (some o) t =
    start_stream-Outcome p f (attributes formats junk i o) (devices formats junk i o)
      i.default_map.channels b t
start_ports-Outcome p f formats junk b _ _ t = (inl (refl, refl, refl), refl)

pub start_btsink-Outcome :
    (p : Pal) (f : Floats) (formats : PalFormats) (junk : Junk) (b : Btsink) (conf : LoopbackConfig)
    (t : History)
    → Outcome p b t (start_btsink p f formats junk b conf t)
unfolding start_btsink
start_btsink-Outcome p f formats junk b conf t =
    start_ports-Outcome p f formats junk b conf.in_port conf.out_port t

-- How the stop of a running session that holds a stream ends, where `before` were the streams beside it:
-- with PAL's refusal of the stop or of the close, or with the stream closed.
abbrev pub StopOutcome : Pal → Btsink → History → List ℕ → ℤ × Btsink × History → Type 0
StopOutcome p b t before (r, b', t') =
    ((failed r ≡ true)
      × ((r ≡ p.rc t (stream_stop b.stream_handle))
          ⊎ (r ≡ p.rc (stream_stop b.stream_handle ∷ t) (stream_close b.stream_handle))))
    ⊎ ((r ≡ pos 0) × (live p t' ≡ before) × (b'.stream_handle ≡ none) × (b'.is_running ≡ false))

stop_after :
    (p : Pal) (b : Btsink) (t : History) (h : ℕ) (before : List ℕ)
    → live p t ≡ h ∷ before
    → b.stream_handle ≡ some h
    → b.is_running ≡ true
    → StopOutcome p b t before (stop_btsink p b t)
unfolding stop_btsink
stop_after p b t h before l s m = ground arith

-- A start followed by a stop. A start that fails leaves open exactly the streams that were open before
-- and the mark as it was. After one that succeeds one more stream is open and the session is marked as
-- running; and then the stop returns PAL's refusal of the stop or of the close, or it returns 0, exactly
-- the streams that were open before the start are open, the handle is cleared and the session is not
-- marked as running.
pub stop-start_btsink :
    (p : Pal) (f : Floats) (formats : PalFormats) (junk : Junk) (b : Btsink) (conf : LoopbackConfig)
    (t : History)
    → let (r, b1, t1) = start_btsink p f formats junk b conf t in
      ((failed r ≡ true) × (live p t1 ≡ live p t) × (b1.is_running ≡ b.is_running))
      ⊎ ((failed r ≡ false)
          × (live p t1 ≡ p.handle t ∷ live p t)
          × (b1.is_running ≡ true)
          × StopOutcome p b1 t1 (live p t) (stop_btsink p b1 t1))
stop-start_btsink p f formats junk b conf t =
    stopped (start_btsink p f formats junk b conf t)
      (start_btsink-Outcome p f formats junk b conf t)
  where
    stopped :
        (out : ℤ × Btsink × History)
        → Outcome p b t out
        → ((failed out.0 ≡ true) × (live p out.2 ≡ live p t) × (out.1.is_running ≡ b.is_running))
          ⊎ ((failed out.0 ≡ false)
              × (live p out.2 ≡ p.handle t ∷ live p t)
              × (out.1.is_running ≡ true)
              × StopOutcome p out.1 out.2 (live p t) (stop_btsink p out.1 out.2))
    stopped (r, b1, t1) (inl bad, s) = inl bad
    stopped (r, b1, t1) (inr (e, l, h, m), s) =
        inr (e, l, m, stop_after p b1 t1 (p.handle t) (live p t) l h m)
