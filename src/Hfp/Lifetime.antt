-- ===== src/Hfp/Lifetime.antt =====
-- The streams of hfp.c over one `start_hfp` and one `stop_hfp`.
use audioreach_pulseaudio_pl.Loopback.{
  Btsco, LoopbackConfig, PortConfig, rx_attributes, rx_in_device, rx_out_device, tx_attributes,
  tx_devices,
}
use audioreach_pulseaudio_pl.Hfp.Streams.{
  start_rx-failed, start_rx_started, start_tx-failed, start_tx_started,
}
use audioreach_pulseaudio_pl.Pal.Live.{live, safe}
use audioreach_pulseaudio_pl.Volume.Laws.{live-set_volume, safe-set_volume}
use audioreach_pulseaudio_pl.Volume.{Floats, set_volume, einval}
use audioreach_pulseaudio_pl.Pal.{ChInfo, History, Pal, PalFormats, Handle}
use audioreach_pulseaudio_pl.Base.{
  List, arith, failed, false, some, true, ℕ, ℤ, ◌∙◌, ◌∷◌, ◌≡◌, [], ap, refl, Bool-cases, Option,
  inl, inr, none, ◌⊎◌,
}
use audioreach_pulseaudio_pl.Hfp.{
  set_btsco_params, start_with, set_volumes, start_rx, start_tx, sync_rate, start_hfp, start_ports,
  stop_hfp,
}

-- The fields of a call in progress: both streams open, the transmit stream on top.
pub record IsStarted (p : Pal) (b : Btsco) (t : History) (before : List ℕ) : Type 0 where
  pub rx : ℕ
  pub tx : ℕ
  pub rx_stored : b.rx_stream_handle ≡ some rx
  pub tx_stored : b.tx_stream_handle ≡ some tx
  pub running : b.is_running ≡ true
  pub both_live : live p t ≡ tx ∷ rx ∷ before

live-sync_rate :
    (p : Pal) (b : Btsco) (port : PortConfig) (t : History)
    → live p (sync_rate p b port t).1 ≡ live p t
unfolding sync_rate set_btsco_params
live-sync_rate p b port t = ground arith

safe-sync_rate :
    (p : Pal) (b : Btsco) (port : PortConfig) (t : History)
    → safe p (sync_rate p b port t).1 ≡ safe p t
unfolding sync_rate set_btsco_params
safe-sync_rate p b port t = ground arith

live-set_volumes :
    (p : Pal) (f : Floats) (b : Btsco) (i o : PortConfig) (t : History)
    → live p (set_volumes p f b i o t) ≡ live p t
unfolding set_volumes
live-set_volumes p f b i o t =
    live-set_volume p f b.tx_stream_handle o.default_map.channels b.tx_volume
      (set_volume p f b.rx_stream_handle i.default_map.channels b.rx_volume t).1
    ∙ live-set_volume p f b.rx_stream_handle i.default_map.channels b.rx_volume t

safe-set_volumes :
    (p : Pal) (f : Floats) (b : Btsco) (i o : PortConfig) (t : History) (before : List ℕ)
    → IsStarted p b t before
    → safe p (set_volumes p f b i o t) ≡ safe p t
unfolding set_volumes
safe-set_volumes p f b i o t before s =
    safe-set_volume p f b.tx_stream_handle o.default_map.channels b.tx_volume
      (set_volume p f b.rx_stream_handle i.default_map.channels b.rx_volume t).1
      (rw (live-set_volume p f b.rx_stream_handle i.default_map.channels b.rx_volume t)
        (ground arith))
    ∙ safe-set_volume p f b.rx_stream_handle i.default_map.channels b.rx_volume t (ground arith)

-- What follows changes no stream.
IsStarted-later :
    (p : Pal) (b : Btsco) (t t' : History) (before : List ℕ)
    → live p t' ≡ live p t
    → IsStarted p b t before
    → IsStarted p b t' before
IsStarted-later p b t t' before e s = record {
  rx = s.rx;
  tx = s.tx;
  rx_stored = s.rx_stored;
  tx_stored = s.tx_stored;
  running = s.running;
  both_live = e ∙ s.both_live;
}

-- A stored handle is as before, or NULL.
abbrev pub IsKeptOrCleared : Handle → Handle → Type 0
IsKeptOrCleared h' h = (h' ≡ h) ⊎ (h' ≡ none)

-- What a start that ended with the given code leaves.
abbrev pub Outcome : Pal → Btsco → History → ℤ × Btsco × History → Type 0
Outcome p b t (r, b', t') =
    ((failed r ≡ true)
        × (live p t' ≡ live p t)
        × (b'.is_running ≡ b.is_running)
        × IsKeptOrCleared b'.rx_stream_handle b.rx_stream_handle
        × IsKeptOrCleared b'.tx_stream_handle b.tx_stream_handle
      ⊎ (failed r ≡ false) × IsStarted p b' t' (live p t))
    × (safe p t' ≡ safe p t)

module _ (p : Pal) (f : Floats) (formats : PalFormats) (junk : ChInfo) (b : Btsco)
    (rx_in rx_out tx_in tx_out : PortConfig) (t : History) where
  abbrev synced : History
  synced = (sync_rate p b rx_in t).1

  abbrev received : ℤ × Btsco × History
  received =
      start_rx p (rx_attributes formats junk b rx_in rx_out)
        (rx_in_device formats junk b rx_in ∷ rx_out_device rx_out ∷ []) b synced

  abbrev sent : ℤ × Btsco × History
  sent =
      start_tx p (tx_attributes formats junk b rx_in tx_in tx_out)
        (tx_devices formats junk b rx_in tx_in tx_out) received.1 received.2

  abbrev result : ℤ × Btsco × History
  result = start_with p f formats junk b rx_in rx_out tx_in tx_out t

  rate_refused : failed (sync_rate p b rx_in t).0 ≡ true → Outcome p b t result
  unfolding start_with
  rate_refused e =
      rw e
        (inl (e, live-sync_rate p b rx_in t, refl, inl refl, inl refl), safe-sync_rate p b rx_in t)

  rx_refused :
      failed (sync_rate p b rx_in t).0 ≡ false → failed received.0 ≡ true → Outcome p b t result
  unfolding start_with
  rx_refused e0 e1 =
      let (l, s, r) =
        start_rx-failed p (rx_attributes formats junk b rx_in rx_out)
          (rx_in_device formats junk b rx_in ∷ rx_out_device rx_out ∷ []) b synced e1 in
      rw (e0, e1)
        (
          inl (
            e1,
            l ∙ live-sync_rate p b rx_in t,
            ap (λ (x : Btsco). x.is_running) r,
            inr (ap (λ (x : Btsco). x.rx_stream_handle) r),
            inl (ap (λ (x : Btsco). x.tx_stream_handle) r),
          ),
          s ∙ safe-sync_rate p b rx_in t,
        )

  module _ (e0 : failed (sync_rate p b rx_in t).0 ≡ false) (e1 : failed received.0 ≡ false) where
    abbrev rx_result :
        (live p received.2 ≡ p.handle synced ∷ live p synced)
        × (safe p received.2 ≡ safe p synced)
        × (received.1 ≡ record b { rx_stream_handle = some (p.handle synced) })
    rx_result =
        start_rx_started p (rx_attributes formats junk b rx_in rx_out)
          (rx_in_device formats junk b rx_in ∷ rx_out_device rx_out ∷ []) b synced e1

    tx_refused : failed sent.0 ≡ true → Outcome p b t result
    unfolding start_with
    tx_refused e2 =
        let (l, s, r) =
          start_tx-failed p (tx_attributes formats junk b rx_in tx_in tx_out)
            (tx_devices formats junk b rx_in tx_in tx_out) received.1 received.2 (p.handle synced)
            (live p synced) (ap (λ (x : Btsco). x.rx_stream_handle) rx_result.2) rx_result.0 e2 in
        rw (e0, e1, e2)
          (
            inl (
              e2,
              l ∙ live-sync_rate p b rx_in t,
              ap (λ (x : Btsco). x.is_running) r ∙ ap (λ (x : Btsco). x.is_running) rx_result.2,
              inr (ap (λ (x : Btsco). x.rx_stream_handle) r),
              inr (ap (λ (x : Btsco). x.tx_stream_handle) r),
            ),
            s ∙ rx_result.1 ∙ safe-sync_rate p b rx_in t,
          )

    started : failed sent.0 ≡ false → IsStarted p sent.1 sent.2 (live p t)
    started e2 =
        let (l, s, r) =
          start_tx_started p (tx_attributes formats junk b rx_in tx_in tx_out)
            (tx_devices formats junk b rx_in tx_in tx_out) received.1 received.2 e2 in
        record {
          rx = p.handle synced;
          tx = p.handle received.2;
          rx_stored =
              ap (λ (x : Btsco). x.rx_stream_handle) r
              ∙ ap (λ (x : Btsco). x.rx_stream_handle) rx_result.2;
          tx_stored = ap (λ (x : Btsco). x.tx_stream_handle) r;
          running = ap (λ (x : Btsco). x.is_running) r;
          both_live =
              l
              ∙ ap (λ q. p.handle received.2 ∷ q)
                  (rx_result.0 ∙ ap (λ q. p.handle synced ∷ q) (live-sync_rate p b rx_in t));
        }

    both_started : failed sent.0 ≡ false → Outcome p b t result
    unfolding start_with
    both_started e2 =
        let (l, s, r) =
          start_tx_started p (tx_attributes formats junk b rx_in tx_in tx_out)
            (tx_devices formats junk b rx_in tx_in tx_out) received.1 received.2 e2 in
        let v = live-set_volumes p f sent.1 rx_in tx_out sent.2 in
        let g = started e2 in
        rw (e0, e1, e2)
          (
            inr (
              e2,
              IsStarted-later p sent.1 sent.2 (set_volumes p f sent.1 rx_in tx_out sent.2)
                  (live p t) v g,
            ),
            safe-set_volumes p f sent.1 rx_in tx_out sent.2 (live p t) g
                ∙ s
                ∙ rx_result.1
                ∙ safe-sync_rate p b rx_in t,
          )

start_with-Outcome :
    (p : Pal) (f : Floats) (formats : PalFormats) (junk : ChInfo) (b : Btsco)
    (rx_in rx_out tx_in tx_out : PortConfig) (t : History)
    → Outcome p b t (start_with p f formats junk b rx_in rx_out tx_in tx_out t)
start_with-Outcome p f formats junk b rx_in rx_out tx_in tx_out t =
    elim (Bool-cases (failed (sync_rate p b rx_in t).0)) [
      | inl e ↦ rate_refused p f formats junk b rx_in rx_out tx_in tx_out t e
      | inr e0 ↦
          elim (Bool-cases (failed (received p f formats junk b rx_in rx_out tx_in tx_out t).0)) [
            | inl e ↦ rx_refused p f formats junk b rx_in rx_out tx_in tx_out t e0 e
            | inr e1 ↦
                elim (Bool-cases (failed (sent p f formats junk b rx_in rx_out tx_in tx_out t).0)) [
                  | inl e ↦ tx_refused p f formats junk b rx_in rx_out tx_in tx_out t e0 e1 e
                  | inr e ↦ both_started p f formats junk b rx_in rx_out tx_in tx_out t e0 e1 e
                ]
          ]
    ]

refused : (p : Pal) (b : Btsco) (t : History) → Outcome p b t (einval, b, t)
refused p b t = (inl (refl, refl, refl, inl refl, inl refl), refl)

start_ports-Outcome :
    (p : Pal) (f : Floats) (formats : PalFormats) (junk : ChInfo) (b : Btsco)
    (rx_in rx_out tx_in tx_out : Option PortConfig) (t : History)
    → Outcome p b t (start_ports p f formats junk b rx_in rx_out tx_in tx_out t)
unfolding start_ports
start_ports-Outcome p f formats junk b (some i) (some o) (some i') (some o') t =
    start_with-Outcome p f formats junk b i o i' o' t
start_ports-Outcome p f formats junk b _ _ _ _ t = refused p b t

-- A start that fails, at whichever call, leaves open exactly the streams that were open before, does
-- not change whether the use case is marked as running, and leaves each stored handle as it was or
-- sets it to NULL. One that succeeds opens two streams,
-- stores both handles and marks the use case as running. Either way it makes
-- no call on a stream that is not open at the time.
pub start_hfp_lem :
    (p : Pal) (f : Floats) (formats : PalFormats) (junk : ChInfo) (b : Btsco)
    (rx tx : LoopbackConfig) (t : History)
    → Outcome p b t (start_hfp p f formats junk b rx tx t)
unfolding start_hfp
start_hfp_lem p f formats junk b rx tx t =
    start_ports-Outcome p f formats junk b rx.in_port rx.out_port tx.in_port tx.out_port t

-- Stopping a started call: if the stop reports success, both streams are closed, both handles are
-- cleared and the use case is no longer running; the streams open before the call stay open.
pub stop_hfp_lem :
    (p : Pal) (b : Btsco) (t : History) (before : List ℕ)
    → IsStarted p b t before
    → failed (stop_hfp p b t).0 ≡ false
    → (live p (stop_hfp p b t).2 ≡ before)
      × ((stop_hfp p b t).1.rx_stream_handle ≡ none)
      × ((stop_hfp p b t).1.tx_stream_handle ≡ none)
      × ((stop_hfp p b t).1.is_running ≡ false)
      × (safe p (stop_hfp p b t).2 ≡ safe p t)
unfolding stop_hfp
stop_hfp_lem p b t before s h = ground arith
