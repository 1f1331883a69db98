-- ===== src/Source/Requests.antt =====
-- What the changes of state, of port and of format of pal-source.c keep.
use audioreach_pulseaudio_pl.Source.Rates.{is_supported_source_rate, source_check_supported_format}
use audioreach_pulseaudio_pl.Ports.{avoid_bit_width}
use audioreach_pulseaudio_pl.Sink.Restart.{has_bit}
use audioreach_pulseaudio_pl.Channel.{ChannelMap, channel_map_to_pal}
use audioreach_pulseaudio_pl.Formats.{Encoding, encoding_pcm, get_pal_format}
use audioreach_pulseaudio_pl.Source.Lifecycle.{
  Returns, IsValid, Keeps, standby-IsValid, start-IsValid, IsValidData,
}
use audioreach_pulseaudio_pl.Volume.{set_device_connection_state}
use audioreach_pulseaudio_pl.Sink.Rates.{SampleSpec}
use audioreach_pulseaudio_pl.Source.Ports.{
  Plug, connect_inputs, connect_plug, plug_aux_digital, plug_hdmi, plug_headset, set_source_port,
}
use audioreach_pulseaudio_pl.Pal.Live.{holds, live, safe}
use audioreach_pulseaudio_pl.Source.Reconfigure.{
  PaSource, Pulse, reconfigure, restart_pal_source, prepared_pal, prepared_source, reconfigured,
  requested_map, requested_spec, source_media, with_in_media,
}
use audioreach_pulseaudio_pl.Source.{
  Source, open_pal_source, present, set_source_state, SourceData, freed,
}
use audioreach_pulseaudio_pl.Pal.{
  Device, Handle, History, Pal, PalDevice, PalFormats, stream_set_device, StreamAttributes,
}
use audioreach_pulseaudio_pl.Base.{
  Bool-cases, Option, arith, false, inl, inr, is_some, none, pos, some, true, ℕ, ℤ, ◌∙◌, ◌∷◌, ◌≡◌,
  refl,
}
use audioreach_pulseaudio_pl.Sink.{CtrlEvent, PortDeviceData, SinkStates, custom_key_of, no_event}
use mathlib.Core.Path.{ap}

pub set_source_state-Returns :
    (p : Pal) (st : SinkStates) (a b : ℕ) (s : Source) (t : History)
    → IsValid p s t
    → Returns p t (set_source_state p st a b (present s) t)
unfolding set_source_state
set_source_state-Returns p st a b s t v =
    ground (arith, start-IsValid p s t v, standby-IsValid p s t v)

-- The connection of an input changes no stream.
connect_plug-same :
    (p : Pal) (plug : Plug) (port active : PortDeviceData) (ret : ℤ) (t : History)
    → (live p (connect_plug p plug port active ret t).3 ≡ live p t)
      × (safe p (connect_plug p plug port active ret t).3 ≡ safe p t)
unfolding connect_plug set_device_connection_state
connect_plug-same p plug port active ret t = ground arith

connect_inputs-same :
    (p : Pal) (port active : PortDeviceData) (t : History)
    → (live p (connect_inputs p port active t).3 ≡ live p t)
      × (safe p (connect_inputs p port active t).3 ≡ safe p t)
unfolding connect_inputs
connect_inputs-same p port active t =
    let (r1, port1, active1, t1) = connect_plug p plug_headset port active (pos 0) t in
    let (r2, port2, active2, t2) = connect_plug p plug_aux_digital port1 active1 r1 t1 in
    let a = connect_plug-same p plug_headset port active (pos 0) t in
    let b = connect_plug-same p plug_aux_digital port1 active1 r1 t1 in
    let c = connect_plug-same p plug_hdmi port2 active2 r2 t2 in (c.0 ∙ b.0 ∙ a.0, c.1 ∙ b.1 ∙ a.1)

-- The result of a change of port, if any, keeps.
abbrev pub PortKeeps :
    Pal → History → Option (ℤ × Source × PortDeviceData × PortDeviceData × History) → Type 0
PortKeeps p t none = Unit {0}
PortKeeps p t (some (r, s, port, active, t')) = Keeps p t (present s) t'

-- The device and the event of a record play no part in its validity, nor has a history of the same
-- streams.
IsValid-later :
    (p : Pal) (s : Source) (t t' : History) (d : PalDevice) (e : CtrlEvent)
    → live p t' ≡ live p t
    → IsValid p s t
    → IsValid p (record s { pal_device = d; source_event_id = e }) t'
IsValid-later p s t t' d e h v = record {
  handle_live = rw h v.handle_live;
  opened_stored = v.opened_stored;
  started_opened = v.started_opened;
}

live-handle :
    (p : Pal) (s : Source) (t : History)
    → IsValid p s t
    → is_some s.stream_handle ≡ true
    → holds (live p t) s.stream_handle ≡ true
live-handle p s t v h = ground arith

safe_device :
    (p : Pal) (t t' : History) (h : Handle) (d : Device)
    → holds (live p t') h ≡ true
    → safe p t' ≡ safe p t
    → safe p (stream_set_device h d ∷ t') ≡ safe p t
safe_device p t t' h d l e = rw l e

pub set_source_port-Keeps :
    (p : Pal) (st : SinkStates) (state : ℕ) (port active : PortDeviceData) (s : Source)
    (t : History)
    → IsValid p s t
    → PortKeeps p t (set_source_port p st state port active s t)
unfolding set_source_port
set_source_port-Keeps p st state port active s t v =
    let t1 = (connect_inputs p port active t).3 in
    let c = connect_inputs-same p port active t in
    let d = record (s.pal_device) {
      id = port.device;
      custom_key = custom_key_of p port.pal_devicepp_config;
    } in
    elim (Bool-cases (st.is_opened state)) [
      | inl e ↦ elim (Bool-cases (is_some s.stream_handle)) [
        | inl h ↦
            simp (e, h)
              (
                IsValid-later p s t (stream_set_device s.stream_handle port.device ∷ t1) d no_event
                    c.0 v,
                safe_device p t t1 s.stream_handle port.device
                    (ap (λ l. holds l s.stream_handle) c.0 ∙ live-handle p s t v h) c.1,
              )
        | inr h ↦ simp (e, h) tt
      ]
      | inr e ↦ simp e (IsValid-later p s t t1 d s.source_event_id c.0 v, c.1)
    ]

open-Keeps :
    (p : Pal) (s : Source) (t : History)
    → s.pal_source_opened ≡ false
    → s.standby ≡ true
    → Keeps p t (present (open_pal_source p s t).1) (open_pal_source p s t).2
unfolding open_pal_source
open-Keeps p s t e h = ground arith

-- A valid source that is not opened is in standby and stays valid with other settings.
idle-IsValid :
    (p : Pal) (s : Source) (t : History) (a : StreamAttributes)
    → IsValid p s t
    → IsValid p (record s { stream_attributes = a }) t
idle-IsValid p s t a v = record {
  handle_live = v.handle_live;
  opened_stored = v.opened_stored;
  started_opened = v.started_opened;
}

abbrev pub RestartKeeps : Pal → History → Option (ℤ × Source × History) → Type 0
RestartKeeps p t none = ⊥
RestartKeeps p t (some (r, s, t')) = Keeps p t (present s) t'

pub restart-Keeps :
    (p : Pal) (formats : PalFormats) (metadata avoid : ℕ) (e : Encoding) (ss : SampleSpec)
    (map : ChannelMap) (s : Source) (t : History)
    → IsValid p s t
    → s.pal_source_opened ≡ false
    → s.standby ≡ true
    → RestartKeeps p t (restart_pal_source p formats metadata avoid e ss map s t)
unfolding restart_pal_source
restart-Keeps p formats metadata avoid enc ss map s t v e h =
    let format = (get_pal_format formats metadata enc none).0 in
    let m =
      source_media formats (has_bit avoid avoid_bit_width) ss format
        s.stream_attributes.in_media_config in
    let s1 = with_in_media (record m { ch_info = (channel_map_to_pal map m.ch_info).1 }) s in
    ground (arith, open-Keeps p s1 t e h, idle-IsValid p s t s1.stream_attributes v)

abbrev pub ReconfigureKeeps : Pal → History → Option (PaSource × Source × History) → Type 0
ReconfigureKeeps p t none = ⊥
ReconfigureKeeps p t (some (ps, s, t')) = Keeps p t (present s) t'

reconfigured-Keeps :
    (p : Pal) (u : Pulse) (old_rate : ℕ) (spec : SampleSpec) (map : ChannelMap) (ps : PaSource)
    (t : History) (o : Option (ℤ × Source × History))
    → RestartKeeps p t o
    → ReconfigureKeeps p t (reconfigured u old_rate spec map ps o)
reconfigured-Keeps p u old_rate spec map ps t none k = k
reconfigured-Keeps p u old_rate spec map ps t (some (r, s, t')) k = ground (arith, k)

pub buffer-IsValid :
    (p : Pal) (u : Pulse) (avoid : ℕ) (spec : SampleSpec) (s : Source) (t : History)
    → IsValid p s t
    → IsValid p (prepared_pal u avoid spec s) t
buffer-IsValid p u avoid spec s t v = ground arith

pub buffer-idle :
    (u : Pulse) (avoid : ℕ) (spec : SampleSpec) (s : Source)
    → ((prepared_pal u avoid spec s).pal_source_opened ≡ s.pal_source_opened)
      × ((prepared_pal u avoid spec s).standby ≡ s.standby)
buffer-idle u avoid spec s = ground arith

pub reconfigure-Keeps :
    (p : Pal) (st : SinkStates) (formats : PalFormats) (u : Pulse) (metadata avoid : ℕ)
    (spec : SampleSpec) (ps : PaSource) (s : Source) (t : History)
    → IsValid p s t
    → s.pal_source_opened ≡ false
    → ReconfigureKeeps p t (reconfigure p st formats u metadata avoid spec ps s t)
unfolding reconfigure
reconfigure-Keeps p st formats u metadata avoid spec ps s t v e =
    let tmp = requested_spec avoid ps spec in
    let new_map = requested_map u avoid ps spec in
    let s1 = prepared_pal u avoid tmp s in
    let i = buffer-idle u avoid tmp s in
    let h : s.standby ≡ true = ground arith in
    let k =
      reconfigured-Keeps p u ps.sample_spec.rate tmp new_map (prepared_source u avoid ps spec) t
        (restart_pal_source p formats metadata avoid encoding_pcm tmp new_map s1 t)
        (restart-Keeps p formats metadata avoid encoding_pcm tmp new_map s1 t
          (buffer-IsValid p u avoid tmp s t v) (i.0 ∙ e) (i.1 ∙ h)) in
    elim (Bool-cases (is_supported_source_rate spec.rate)) [
      | inr a ↦ simp a (v, refl)
      | inl a ↦ elim (Bool-cases (source_check_supported_format spec.format)) [
        | inr b ↦ simp (a, b) (v, refl)
        | inl b ↦ elim (Bool-cases (st.is_opened ps.state)) [
          | inl c ↦ simp (a, b, c) (v, refl)
          | inr c ↦ simp (a, b, c) k
        ]
      ]
    ]

abbrev pub StateKeeps : Pal → History → Option (ℤ × SourceData × History) → Type 0
StateKeeps p t none = Unit {0}
StateKeeps p t (some (r, d, t')) = Keeps p t d t'

Returns-StateKeeps :
    (p : Pal) (t : History) (o : Option (ℤ × SourceData × History))
    → Returns p t o
    → StateKeeps p t o
Returns-StateKeeps p t none k = elim k [ ]
Returns-StateKeeps p t (some r) k = k

pub set_source_state-Keeps :
    (p : Pal) (st : SinkStates) (a b : ℕ) (d : SourceData) (t : History)
    → IsValidData p d t
    → StateKeeps p t (set_source_state p st a b d t)
unfolding set_source_state
set_source_state-Keeps p st a b (present s) t v =
    Returns-StateKeeps p t (set_source_state p st a b (present s) t)
      (set_source_state-Returns p st a b s t v)
set_source_state-Keeps p st a b (freed o) t v = ground arith
