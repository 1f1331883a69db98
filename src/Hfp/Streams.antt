-- ===== src/Hfp/Streams.antt =====
-- The two halves of `start_hfp`, each with its clean-up.
use audioreach_pulseaudio_pl.Loopback.{Btsco}
use audioreach_pulseaudio_pl.Pal.Live.{live, safe}
use audioreach_pulseaudio_pl.Base.{List, arith, failed, false, none, some, true, ℕ, ◌∷◌, ◌≡◌}
use audioreach_pulseaudio_pl.Pal.{History, Pal, PalDevice, StreamAttributes}
use audioreach_pulseaudio_pl.Hfp.{start_rx, start_tx}

pub start_rx-failed :
    (p : Pal) (a : StreamAttributes) (ds : List PalDevice) (b : Btsco) (t : History)
    → failed (start_rx p a ds b t).0 ≡ true
    → (live p (start_rx p a ds b t).2 ≡ live p t)
      × (safe p (start_rx p a ds b t).2 ≡ safe p t)
      × ((start_rx p a ds b t).1 ≡ record b { rx_stream_handle = none })
unfolding start_rx
start_rx-failed p a ds b t h = ground arith

pub start_rx_started :
    (p : Pal) (a : StreamAttributes) (ds : List PalDevice) (b : Btsco) (t : History)
    → failed (start_rx p a ds b t).0 ≡ false
    → (live p (start_rx p a ds b t).2 ≡ p.handle t ∷ live p t)
      × (safe p (start_rx p a ds b t).2 ≡ safe p t)
      × ((start_rx p a ds b t).1 ≡ record b { rx_stream_handle = some (p.handle t) })
unfolding start_rx
start_rx_started p a ds b t h = ground arith

pub start_tx-failed :
    (p : Pal) (a : StreamAttributes) (ds : List PalDevice) (b : Btsco) (t : History) (rx : ℕ)
    (l : List ℕ)
    → b.rx_stream_handle ≡ some rx
    → live p t ≡ rx ∷ l
    → failed (start_tx p a ds b t).0 ≡ true
    → (live p (start_tx p a ds b t).2 ≡ l)
      × (safe p (start_tx p a ds b t).2 ≡ safe p t)
      × ((start_tx p a ds b t).1 ≡ record b { tx_stream_handle = none; rx_stream_handle = none })
unfolding start_tx
start_tx-failed p a ds b t rx l e k h = ground arith

pub start_tx_started :
    (p : Pal) (a : StreamAttributes) (ds : List PalDevice) (b : Btsco) (t : History)
    → failed (start_tx p a ds b t).0 ≡ false
    → (live p (start_tx p a ds b t).2 ≡ p.handle t ∷ live p t)
      × (safe p (start_tx p a ds b t).2 ≡ safe p t)
      × ((start_tx p a ds b t).1
          ≡ record b { tx_stream_handle = some (p.handle t); is_running = true })
unfolding start_tx
start_tx_started p a ds b t h = ground arith
