-- ===== src/Source/Reconfigured.antt =====
-- What a new format of a source comes to (`pa_pal_source_reconfigure_cb` of pal-source.c).
use audioreach_pulseaudio_pl.Pal.Live.{live}
use audioreach_pulseaudio_pl.Sink.{SinkStates}
use audioreach_pulseaudio_pl.Channel.{ChannelMap, channel_map_to_pal}
use audioreach_pulseaudio_pl.Source.Requests.{buffer-idle}
use audioreach_pulseaudio_pl.Formats.{Encoding, encoding_pcm, get_pal_format}
use audioreach_pulseaudio_pl.Sink.Restart.{has_bit}
use audioreach_pulseaudio_pl.Pal.{History, Pal, PalFormats, stream_open}
use audioreach_pulseaudio_pl.Ports.{avoid_bit_width}
use audioreach_pulseaudio_pl.Sink.Rates.{SampleSpec}
use audioreach_pulseaudio_pl.Source.{Source, open_pal_source}
use audioreach_pulseaudio_pl.Source.Reconfigure.{
  PaSource, requested_spec, Pulse, prepared_pal, prepared_source, reconfigure, reconfigured,
  requested_map, restart_pal_source, source_media, with_in_media,
}
use audioreach_pulseaudio_pl.Base.{
  List, Option, [], arith, mem, none, some, true, ℕ, ◌∷◌, ◌≡◌, ◌⊎◌, Bool-cases, failed, false, inl,
  inr, refl, ℤ, ◌∙◌,
}
use audioreach_pulseaudio_pl.Source.Rates.{
  is_supported_source_rate, nearest_source_from, nearest_source_rate, supported_source_rates,
  source_check_supported_format,
}

nearest-supported :
    (rate near : ℕ) (rates : List ℕ)
    → mem rate rates ≡ true
    → nearest_source_from rate near rates ≡ rate
unfolding nearest_source_from
nearest-supported rate near [] h = absurd (cc)
nearest-supported rate near (r ∷ rates) h =
    ground (arith, nearest-supported rate near rates, nearest-supported rate r rates)

-- A rate that the source supports is its own nearest one, so a request never gets another rate.
pub supported_rate_kept :
    (avoid : ℕ) (ps : PaSource) (spec : SampleSpec)
    → is_supported_source_rate spec.rate ≡ true
    → (requested_spec avoid ps spec).rate ≡ spec.rate
unfolding nearest_source_rate
supported_rate_kept avoid ps spec h =
    ground (arith, nearest-supported spec.rate 48000 supported_source_rates h)

-- All of the request is in PulseAudio's source, and PAL opened a stream with attributes of the requested
-- rate, which the source holds.
abbrev pub Accepted :
    Pal → ℕ → PaSource → SampleSpec → History → PaSource → Source → History → Type 0
Accepted p avoid ps spec t ps' s' t' =
    (ps'.sample_spec ≡ requested_spec avoid ps spec)
    × (ps'.sample_spec.rate ≡ spec.rate)
    × (s'.stream_attributes.in_media_config.sample_rate ≡ spec.rate)
    × (live p (stream_open s'.stream_attributes (s'.pal_device ∷ []) ∷ t) ≡ p.handle t ∷ live p t)
    × (live p t' ≡ p.handle t ∷ live p t)
    × (s'.stream_handle ≡ some (p.handle t))

-- The new format is in PulseAudio's source, with the old rate, channels and map.
abbrev pub Restored : PaSource → SampleSpec → PaSource → Type 0
Restored ps spec ps' =
    (ps'.sample_spec ≡ record (ps.sample_spec) { format = spec.format })
    × (ps'.channel_map ≡ ps.channel_map)
    × (ps'.fixed_latency ≡ ps.fixed_latency)

-- What the callback makes of the result of the restart.
abbrev pub Outcome :
    Pal
    → ℕ
    → PaSource
    → SampleSpec
    → History
    → Option (ℤ × Source × History)
    → Option (PaSource × Source × History)
    → Type 0
Outcome p avoid ps spec t none _ = ⊥
Outcome p avoid ps spec t _ none = ⊥
Outcome p avoid ps spec t (some (r, s1, t1)) (some (ps', s', t')) =
    (s' ≡ s1)
    × (t' ≡ t1)
    × ((failed r ≡ false) × Accepted p avoid ps spec t ps' s' t'
        ⊎ (failed r ≡ true) × Restored ps spec ps')

-- A restart that succeeds opens the stream with the given rate.
abbrev Opened : Pal → ℕ → History → Option (ℤ × Source × History) → Type 0
Opened p rate t none = ⊥
Opened p rate t (some (r, s', t')) =
    (failed r ≡ true)
    ⊎ ((s'.stream_attributes.in_media_config.sample_rate ≡ rate)
        × (live p (stream_open s'.stream_attributes (s'.pal_device ∷ []) ∷ t)
            ≡ p.handle t ∷ live p t)
        × (live p t' ≡ p.handle t ∷ live p t)
        × (s'.stream_handle ≡ some (p.handle t)))

open-Opened :
    (p : Pal) (s : Source) (t : History)
    → Opened p s.stream_attributes.in_media_config.sample_rate t (some (open_pal_source p s t))
unfolding open_pal_source
open-Opened p s t = ground arith

restart-Opened :
    (p : Pal) (formats : PalFormats) (metadata avoid : ℕ) (e : Encoding) (ss : SampleSpec)
    (map : ChannelMap) (s : Source) (t : History)
    → s.standby ≡ true
    → Opened p ss.rate t (restart_pal_source p formats metadata avoid e ss map s t)
unfolding restart_pal_source
restart-Opened p formats metadata avoid enc ss map s t h =
    let format = (get_pal_format formats metadata enc none).0 in
    let m =
      source_media formats (has_bit avoid avoid_bit_width) ss format
        s.stream_attributes.in_media_config in
    let s1 = with_in_media (record m { ch_info = (channel_map_to_pal map m.ch_info).1 }) s in
    ground (arith, open-Opened p s1 t)

reconfigured-Outcome :
    (p : Pal) (u : Pulse) (avoid : ℕ) (spec : SampleSpec) (map : ChannelMap) (ps : PaSource)
    (t : History) (o : Option (ℤ × Source × History))
    → (requested_spec avoid ps spec).rate ≡ spec.rate
    → Opened p (requested_spec avoid ps spec).rate t o
    → Outcome p avoid ps spec t o (
        reconfigured u ps.sample_spec.rate
          (requested_spec avoid ps spec)
          map
          (prepared_source u avoid ps spec)
          o)
reconfigured-Outcome p u avoid spec map ps t none e k = k
reconfigured-Outcome p u avoid spec map ps t (some (r, s', t')) e (inl f) =
    rw f (refl, refl, inr (f, (refl, refl, refl)))
reconfigured-Outcome p u avoid spec map ps t (some (r, s', t')) e (inr (k, opens, l, h)) =
    elim (Bool-cases (failed r)) [
      | inl f ↦ rw f (refl, refl, inr (f, (refl, refl, refl)))
      | inr f ↦ rw f (refl, refl, inl (f, (refl, e, k ∙ e, opens, l, h)))
    ]

-- A request of a supported rate and format for a source in standby, while PulseAudio's source is not
-- opened, has a result: the restart with the requested specification and map leaves the source and the
-- calls. Where the restart succeeds, PulseAudio's source gets the requested specification, of the very
-- rate that was asked for, and PAL opened a stream with attributes of this rate, which the source
-- holds. Where it fails, PulseAudio's source keeps its rate, channels, map and latency, and gets the
-- requested format all the same.
pub reconfigure-Outcome :
    (p : Pal) (st : SinkStates) (formats : PalFormats) (u : Pulse) (metadata avoid : ℕ)
    (spec : SampleSpec) (ps : PaSource) (s : Source) (t : History)
    → s.standby ≡ true
    → is_supported_source_rate spec.rate ≡ true
    → source_check_supported_format spec.format ≡ true
    → st.is_opened ps.state ≡ false
    → let tmp = requested_spec avoid ps spec in
      Outcome p avoid ps spec t
        (restart_pal_source p formats metadata avoid encoding_pcm tmp
          (requested_map u avoid ps spec)
          (prepared_pal u avoid tmp s)
          t)
        (reconfigure p st formats u metadata avoid spec ps s t)
unfolding reconfigure
reconfigure-Outcome p st formats u metadata avoid spec ps s t h a b c =
    let tmp = requested_spec avoid ps spec in
    let new_map = requested_map u avoid ps spec in
    let s1 = prepared_pal u avoid tmp s in
    let k =
      reconfigured-Outcome p u avoid spec new_map ps t
        (restart_pal_source p formats metadata avoid encoding_pcm tmp new_map s1 t)
        (supported_rate_kept avoid ps spec a)
        (restart-Opened p formats metadata avoid encoding_pcm tmp new_map s1 t
          ((buffer-idle u avoid tmp s).1 ∙ h)) in
    simp (a, b, c) k
