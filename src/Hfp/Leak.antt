-- ===== src/Hfp/Leak.antt =====
-- A `stop_hfp` of hfp.c that PAL refuses.
use audioreach_pulseaudio_pl.Loopback.{Btsco, PortConfig, e_failure}
use audioreach_pulseaudio_pl.Volume.{set_device_connection_state}
use audioreach_pulseaudio_pl.Hfp.{deinit_btsco, stop_hfp}
use audioreach_pulseaudio_pl.Base.{
  List, Option, failed, some, true, ℕ, ◌∷◌, ◌≡◌, arith, false, none, refl, ℤ, ◌∙◌,
}
use audioreach_pulseaudio_pl.Pal.{History, Pal, stream_stop}
use audioreach_pulseaudio_pl.Pal.Live.{live}
use audioreach_pulseaudio_pl.Hfp.Lifetime.{IsStarted}

abbrev refused_stop : Pal → Btsco → History → ℤ × Btsco × History
refused_stop p b t = (
  p.rc t (stream_stop b.rx_stream_handle),
  record b { is_running = false },
  stream_stop b.rx_stream_handle ∷ t,
)

stop_hfp-eq-refused_stop :
    (p : Pal) (b : Btsco) (t : History) (rx : ℕ)
    → b.rx_stream_handle ≡ some rx
    → b.is_running ≡ true
    → failed (p.rc t (stream_stop b.rx_stream_handle)) ≡ true
    → stop_hfp p b t ≡ refused_stop p b t
unfolding stop_hfp
stop_hfp-eq-refused_stop p b t rx h r e = ground arith

stop_hfp_idle :
    (p : Pal) (b : Btsco) (t : History) → b.is_running ≡ false → stop_hfp p b t ≡ (e_failure, b, t)
unfolding stop_hfp
stop_hfp_idle p b t e = ground arith

live-deinit_btsco_idle :
    (p : Pal) (b : Btsco) (port_in port_out : Option PortConfig) (t : History)
    → b.is_running ≡ false
    → live p (deinit_btsco p (some b) port_in port_out t) ≡ live p t
unfolding deinit_btsco set_device_connection_state
live-deinit_btsco_idle p b none none t e = ground arith
live-deinit_btsco_idle p b none (some o) t e = ground arith
live-deinit_btsco_idle p b (some i) none t e = ground arith
live-deinit_btsco_idle p b (some i) (some o) t e = ground arith

-- If PAL refuses to stop the receive stream of a call in progress, the stop returns that error with
-- both streams still open, while the use case is no longer marked as running. A later stop is then
-- refused without any call of PAL, and the deinitialisation closes neither stream: both stay open
-- for good.
pub stop_hfp-refused :
    (p : Pal) (b : Btsco) (t : History) (before : List ℕ) (port_in port_out : Option PortConfig)
    → (s : IsStarted p b t before) → failed (p.rc t (stream_stop b.rx_stream_handle)) ≡ true
    → let (r, b', t') = stop_hfp p b t in
      (r ≡ p.rc t (stream_stop b.rx_stream_handle))
      × (live p t' ≡ s.tx ∷ s.rx ∷ before)
      × (stop_hfp p b' t' ≡ (e_failure, b', t'))
      × (live p (deinit_btsco p (some b') port_in port_out t') ≡ s.tx ∷ s.rx ∷ before)
stop_hfp-refused p b t before port_in port_out s e =
    rw (stop_hfp-eq-refused_stop p b t s.rx s.rx_stored s.running e) (
      refl,
      s.both_live,
      stop_hfp_idle p (record b { is_running = false }) (stream_stop b.rx_stream_handle ∷ t) refl,
      live-deinit_btsco_idle p (record b { is_running = false }) port_in port_out
            (stream_stop b.rx_stream_handle ∷ t) refl
          ∙ s.both_live,
    )
