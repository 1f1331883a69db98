-- ===== src/A2dp/Sessions.antt =====
-- The session methods of the A2DP sink, in any order.
use audioreach_pulseaudio_pl.Loopback.{LoopbackConfig}
use audioreach_pulseaudio_pl.A2dp.{Btsink, Junk, loopback_create, loopback_destroy, stop_btsink}
use audioreach_pulseaudio_pl.Volume.{Floats}
use audioreach_pulseaudio_pl.Pal.Live.{holds, live, mem-cons_self, safe}
use audioreach_pulseaudio_pl.Base.{List, [], arith, true, ◌∷◌, ◌≡◌, false, ◌⊎◌}
use audioreach_pulseaudio_pl.A2dp.Lifetime.{start_btsink-Outcome}
use audioreach_pulseaudio_pl.Pal.{History, Pal, PalFormats}

pub data SinkOp : Type 0 where
  create : LoopbackConfig → SinkOp
  destroy : SinkOp

module _ (p : Pal) (f : Floats) (formats : PalFormats) (junk : Junk) where
  unfoldable pub run : List SinkOp → Btsink → History → Btsink × History
  run [] b t = (b, t)
  run (create conf ∷ ops) b t =
      let (r, b', t') = loopback_create p f formats junk conf b t in run ops b' t'
  run (destroy ∷ ops) b t = let (r, b', t') = loopback_destroy p b t in run ops b' t'

-- A running session holds an open stream.
abbrev pub HoldsStream : Pal → Btsink → History → Type 0
HoldsStream p b t = (b.is_running ≡ false) ⊎ (holds (live p t) b.stream_handle ≡ true)

create_keeps :
    (p : Pal) (f : Floats) (formats : PalFormats) (junk : Junk) (conf : LoopbackConfig) (b : Btsink)
    (t : History)
    → HoldsStream p b t
    → safe p t ≡ true
    → let (r, b', t') = loopback_create p f formats junk conf b t in
      HoldsStream p b' t' × (safe p t' ≡ true)
unfolding loopback_create
create_keeps p f formats junk conf b t i s =
    ground
      (arith, start_btsink-Outcome p f formats junk b conf t, mem-cons_self (p.handle t) (live p t))

destroy_keeps :
    (p : Pal) (b : Btsink) (t : History)
    → HoldsStream p b t
    → safe p t ≡ true
    → let (r, b', t') = loopback_destroy p b t in HoldsStream p b' t' × (safe p t' ≡ true)
unfolding loopback_destroy stop_btsink
destroy_keeps p b t i s = ground arith

-- Begun with no running session or one that holds an open stream, after a history that used only
-- open streams: whatever PAL answers, every sequence of create and destroy requests uses only a
-- stream that is open, and a session marked as running holds one throughout.
pub sessions-safe :
    (p : Pal) (f : Floats) (formats : PalFormats) (junk : Junk) (ops : List SinkOp) (b : Btsink)
    (t : History)
    → HoldsStream p b t
    → safe p t ≡ true
    → let (b', t') = run p f formats junk ops b t in HoldsStream p b' t' × (safe p t' ≡ true)
unfolding run
sessions-safe p f formats junk [] b t i s = (i, s)
sessions-safe p f formats junk (create conf ∷ ops) b t i s =
    let out = loopback_create p f formats junk conf b t in
    let k = create_keeps p f formats junk conf b t i s in
    sessions-safe p f formats junk ops out.1 out.2 k.0 k.1
sessions-safe p f formats junk (destroy ∷ ops) b t i s =
    let out = loopback_destroy p b t in
    let k = destroy_keeps p b t i s in sessions-safe p f formats junk ops out.1 out.2 k.0 k.1
