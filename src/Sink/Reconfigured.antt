-- ===== src/Sink/Reconfigured.antt =====
-- What a new sample specification of a sink comes to (`pa_pal_sink_reconfigure_cb` of pal-sink.c).
use audioreach_pulseaudio_pl.Source.Reconfigure.{Pulse}
use audioreach_pulseaudio_pl.Sink.Restart.{restart_pal_sink}
use audioreach_pulseaudio_pl.Sink.{Sink, SinkStates}
use audioreach_pulseaudio_pl.Sink.Rates.{
  SampleSpec, default_sink_rate, find_nearest_supported_sample_rate, nearest_from,
  supported_sink_rates,
}
use audioreach_pulseaudio_pl.Base.{
  Bool-cases, List, Option, [], arith, failed, false, inl, inr, mem, refl, true, ℕ, ◌∷◌, ◌≡◌, ◌⊎◌,
}
use audioreach_pulseaudio_pl.Sink.Reconfigure.{
  PaSink, Restart, prepared_pal_sink, prepared_sink, reconfigure_sink, reconfigured_sink,
  requested_sink_map, requested_sink_spec,
}
use audioreach_pulseaudio_pl.Pal.{History, Pal, PalFormats}
use audioreach_pulseaudio_pl.Formats.{SndDec, encoding_pcm}

nearest-supported :
    (rate near : ℕ) (rates : List ℕ) → mem rate rates ≡ true → nearest_from rate near rates ≡ rate
unfolding nearest_from
nearest-supported rate near [] h = absurd (cc)
nearest-supported rate near (r ∷ rates) h =
    ground (arith, nearest-supported rate near rates, nearest-supported rate r rates)

supported_sink_rate :
    (avoid : ℕ) (ps : PaSink) (spec : SampleSpec)
    → mem spec.rate supported_sink_rates ≡ true
    → (requested_sink_spec avoid ps spec).rate ≡ spec.rate
unfolding find_nearest_supported_sample_rate
supported_sink_rate avoid ps spec h =
    ground (arith, nearest-supported spec.rate default_sink_rate supported_sink_rates h)

-- All of the request is in PulseAudio's sink, or nothing but the volume.
abbrev pub SinkOutcome : Pulse → ℕ → PaSink → SampleSpec → PaSink × Restart → Type 0
SinkOutcome u avoid ps spec (ps', (r, s', dec', t')) =
    ((failed r ≡ false)
      × (ps'.sample_spec ≡ requested_sink_spec avoid ps spec)
      × (ps'.sample_spec.rate ≡ spec.rate)
      × (ps'.channel_map ≡ requested_sink_map u avoid ps spec)
      × (ps'.max_request ≡ s'.buffer_size))
    ⊎ ((failed r ≡ true)
        × (ps'.sample_spec ≡ ps.sample_spec)
        × (ps'.channel_map ≡ ps.channel_map)
        × (ps'.max_request ≡ ps.max_request)
        × (ps'.fixed_latency ≡ ps.fixed_latency))

reconfigured_sink_lem :
    (u : Pulse) (avoid sink_latency_us : ℕ) (spec : SampleSpec) (ps : PaSink) (o : Restart)
    → (requested_sink_spec avoid ps spec).rate ≡ spec.rate
    → SinkOutcome u avoid ps spec (
        reconfigured_sink sink_latency_us ps.sample_spec.rate
          (requested_sink_spec avoid ps spec)
          (requested_sink_map u avoid ps spec)
          (prepared_sink u avoid ps spec)
          o)
reconfigured_sink_lem u avoid sink_latency_us spec ps (r, s, dec, t) e =
    elim (Bool-cases (failed r)) [
      | inl f ↦ rw f (inr (f, refl, refl, refl, refl))
      | inr f ↦ rw f (inl (f, refl, e, refl, refl))
    ]

-- A request of a supported rate while PulseAudio's sink is not opened: where the restart succeeds,
-- PulseAudio's sink gets the requested specification, of the very rate that was asked for, the map
-- of the request, and the buffer's size for its largest request; where it fails, the sink keeps its
-- specification, map, largest request and latency.
pub reconfigure_sink-SinkOutcome :
    (p : Pal) (st : SinkStates) (formats : PalFormats) (u : Pulse)
    (sink_latency_us metadata avoid : ℕ) (spec : SampleSpec) (ps : PaSink) (dec : Option SndDec)
    (s : Sink) (t : History)
    → mem spec.rate supported_sink_rates ≡ true
    → st.is_opened ps.state ≡ false
    → SinkOutcome u avoid ps spec
        (reconfigure_sink p st formats u sink_latency_us metadata avoid spec ps dec s t)
unfolding reconfigure_sink
reconfigure_sink-SinkOutcome p st formats u sink_latency_us metadata avoid spec ps dec s t a b =
    let tmp = requested_sink_spec avoid ps spec in
    let map = requested_sink_map u avoid ps spec in
    simp (a, b)
      (reconfigured_sink_lem u avoid sink_latency_us spec ps
        (restart_pal_sink p st formats u.sample_size avoid metadata encoding_pcm tmp map
          ps.thread_state dec (prepared_pal_sink u avoid tmp s) t)
        (supported_sink_rate avoid ps spec a))
