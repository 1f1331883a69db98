-- ===== src/Sink/Reach.antt =====
-- The sink under any sequence of PulseAudio's requests.
use audioreach_pulseaudio_pl.Pal.Live.{live, safe, holds}
use audioreach_pulseaudio_pl.Sink.Volume.{Gains, set_sink_volume}
use audioreach_pulseaudio_pl.Source.Reconfigure.{CVolume, Pulse}
use audioreach_pulseaudio_pl.Volume.{set_device_connection_state}
use audioreach_pulseaudio_pl.Sink.Lifecycle.{IsValid, Keeps, standby-IsValid, start-IsValid}
use audioreach_pulseaudio_pl.Pal.{History, Pal, PalDevice, Device, stream_set_device}
use mathlib.Core.Path.{subst}
use audioreach_pulseaudio_pl.Base.{
  Bool, Option, none, some, Bool-cases, arith, false, inl, inr, is_some, refl, true, ℕ, ◌≡◌, ◌⊎◌,
  ◌∙◌, ◌∷◌,
}
use audioreach_pulseaudio_pl.Sink.{
  PortDeviceData, Sink, SinkStates, connect_ports, drain, flush, set_port, set_state, CtrlEvent,
  no_event,
}

-- One request. A change of state may come at any time, and so may one of the volume that has a result; a change of port, a drain and a flush come,
-- by the functions' own assertions, on an opened state only where the sink has a handle.
pub data Step (p : Pal) (st : SinkStates) (s : Sink) (t : History) : Sink → History → Type 0 where
  change_state :
      (thread_state new_state : ℕ)
      → Step p st s t
          (set_state p st thread_state new_state s t).1
          (set_state p st thread_state new_state s t).2
  change_port :
      (state : ℕ) (port active : PortDeviceData)
      → (st.is_opened state ≡ false) ⊎ (is_some s.stream_handle ≡ true)
      → Step p st s t
          (set_port p st state port active s t).1
          (set_port p st state port active s t).4
  drain_stream :
      (state : ℕ) → is_some s.stream_handle ≡ true → Step p st s t s (drain p st state s t).1
  flush_stream :
      (state : ℕ) → is_some s.stream_handle ≡ true → Step p st s t s (flush p st state s t).1
  change_volume :
      (u : Pulse) (g : Gains) (is_running : Bool) (v v' : CVolume) {s' : Sink} {t' : History}
      → set_sink_volume p u g is_running v s t ≡ some (v', s', t')
      → Step p st s t s' t'

pub data Reach (p : Pal) (st : SinkStates) (s : Sink) (t : History) : Sink → History → Type 0 where
  here : Reach p st s t s t
  next :
      {s1 s2 : Sink} {t1 t2 : History}
      → Reach p st s t s1 t1
      → Step p st s1 t1 s2 t2
      → Reach p st s t s2 t2

set_state-Keeps :
    (p : Pal) (st : SinkStates) (a b : ℕ) (s : Sink) (t : History)
    → IsValid p s t
    → Keeps p t (set_state p st a b s t).1 (set_state p st a b s t).2
unfolding set_state
set_state-Keeps p st a b s t v = ground (arith, start-IsValid p s t v, standby-IsValid p s t v)

-- The connection of the digital output changes no stream.
connect_ports-Keeps :
    (p : Pal) (port active : PortDeviceData) (t : History)
    → (live p (connect_ports p port active t).3 ≡ live p t)
      × (safe p (connect_ports p port active t).3 ≡ safe p t)
unfolding connect_ports set_device_connection_state
connect_ports-Keeps p port active t = ground arith

-- With the streams of the history unchanged the record stays valid.
IsValid-later :
    (p : Pal) (s : Sink) (t t' : History) → live p t' ≡ live p t → IsValid p s t → IsValid p s t'
IsValid-later p s t t' e v = record {
  handle_live = rw e v.handle_live;
  opened_stored = v.opened_stored;
  started_opened = v.started_opened;
}

-- The device and the event of a record play no part in its validity.
IsValid-device :
    (p : Pal) (s : Sink) (t : History) (d : PalDevice) (e : CtrlEvent)
    → IsValid p s t
    → IsValid p (record s { pal_device = d; sink_event_id = e }) t
IsValid-device p s t d e v = record {
  handle_live = v.handle_live;
  opened_stored = v.opened_stored;
  started_opened = v.started_opened;
}

live-handle :
    (p : Pal) (s : Sink) (t : History)
    → IsValid p s t
    → is_some s.stream_handle ≡ true
    → holds (live p t) s.stream_handle ≡ true
live-handle p s t v h = ground arith

set_device-Keeps :
    (p : Pal) (s : Sink) (t : History) (d : Device) (pd : PalDevice)
    → IsValid p s t
    → is_some s.stream_handle ≡ true
    → Keeps p t
        (record s { pal_device = pd; sink_event_id = no_event })
        (stream_set_device s.stream_handle d ∷ t)
set_device-Keeps p s t d pd v h = (
  IsValid-later p (record s { pal_device = pd; sink_event_id = no_event }) t
      (stream_set_device s.stream_handle d ∷ t) refl (IsValid-device p s t pd no_event v),
  rw (live-handle p s t v h),
)

set_port-Keeps :
    (p : Pal) (st : SinkStates) (state : ℕ) (port active : PortDeviceData) (s : Sink) (t : History)
    → IsValid p s t
    → (st.is_opened state ≡ false) ⊎ (is_some s.stream_handle ≡ true)
    → Keeps p t (set_port p st state port active s t).1 (set_port p st state port active s t).4
unfolding set_port
set_port-Keeps p st state port active s t v g =
    let c = connect_ports-Keeps p port active t in
    let v' = IsValid-later p s t (connect_ports p port active t).3 c.0 v in
    elim g [
      | inl e ↦
          simp e (IsValid-device p s (connect_ports p port active t).3 _ s.sink_event_id v', c.1)
      | inr h ↦ elim (Bool-cases (st.is_opened state)) [
        | inl e ↦
            let k = set_device-Keeps p s (connect_ports p port active t).3 port.device _ v' h in
            simp (e, h) (k.0, k.1 ∙ c.1)
        | inr e ↦
            simp e (IsValid-device p s (connect_ports p port active t).3 _ s.sink_event_id v', c.1)
      ]
    ]

drain-Keeps :
    (p : Pal) (st : SinkStates) (state : ℕ) (s : Sink) (t : History)
    → IsValid p s t
    → is_some s.stream_handle ≡ true
    → Keeps p t s (drain p st state s t).1
unfolding drain
drain-Keeps p st state s t v h = ground (arith, live-handle p s t v h)

flush-Keeps :
    (p : Pal) (st : SinkStates) (state : ℕ) (s : Sink) (t : History)
    → IsValid p s t
    → is_some s.stream_handle ≡ true
    → Keeps p t s (flush p st state s t).1
unfolding flush
flush-Keeps p st state s t v h = ground (arith, live-handle p s t v h)

abbrev VolumeKeeps : Pal → History → Option (CVolume × Sink × History) → Type 0
VolumeKeeps p t none = Unit {0}
VolumeKeeps p t (some (v, s, t')) = Keeps p t s t'

set_sink_volume-Keeps :
    (p : Pal) (u : Pulse) (g : Gains) (is_running : Bool) (w : CVolume) (s : Sink) (t : History)
    → IsValid p s t
    → VolumeKeeps p t (set_sink_volume p u g is_running w s t)
unfolding set_sink_volume
set_sink_volume-Keeps p u g is_running w s t v = ground (arith, live-handle p s t v)

Step-Keeps :
    (p : Pal) (st : SinkStates) (s : Sink) (t : History) {s' : Sink} {t' : History}
    → Step p st s t s' t'
    → IsValid p s t
    → Keeps p t s' t'
Step-Keeps p st s t (change_state a b) v = set_state-Keeps p st a b s t v
Step-Keeps p st s t (change_port a port active g) v = set_port-Keeps p st a port active s t v g
Step-Keeps p st s t (drain_stream a h) v = drain-Keeps p st a s t v h
Step-Keeps p st s t (flush_stream a h) v = flush-Keeps p st a s t v h
Step-Keeps p st s t (change_volume u g is_running w w' e) v =
    subst (VolumeKeeps p t) e (set_sink_volume-Keeps p u g is_running w s t v)

-- Whatever PAL answers, a valid sink stays valid under every sequence of changes of state, of port
-- and of volume, drains and flushes (a stored handle is an open stream, an opened sink has one, a sink that is
-- not in standby is opened), and every call that it makes on a stream is made while it is open.
pub Reach-safe :
    (p : Pal) (st : SinkStates) (s : Sink) (t : History) {s' : Sink} {t' : History}
    → IsValid p s t
    → Reach p st s t s' t'
    → IsValid p s' t' × (safe p t' ≡ safe p t)
Reach-safe p st s t v here = (v, refl)
Reach-safe p st s t v (next {s1 = s1} {t1 = t1} r step) =
    let before = Reach-safe p st s t v r in
    let k = Step-Keeps p st s1 t1 step before.0 in (k.0, k.1 ∙ before.1)
