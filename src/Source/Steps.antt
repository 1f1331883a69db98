-- ===== src/Source/Steps.antt =====
-- The source under any sequence of PulseAudio's requests.
use audioreach_pulseaudio_pl.Source.Requests.{
  PortKeeps, ReconfigureKeeps, StateKeeps, reconfigure-Keeps, set_source_port-Keeps,
  set_source_state-Keeps, set_source_state-Returns,
}
use audioreach_pulseaudio_pl.Source.Lifecycle.{Returns, IsValid, Keeps, IsValidData}
use audioreach_pulseaudio_pl.Sink.Rates.{SampleSpec}
use audioreach_pulseaudio_pl.Source.Ports.{set_source_port}
use audioreach_pulseaudio_pl.Pal.Live.{holds, live, safe}
use audioreach_pulseaudio_pl.Sink.Volume.{Gains, set_source_volume}
use audioreach_pulseaudio_pl.Source.Reconfigure.{CVolume, PaSource, Pulse, reconfigure}
use audioreach_pulseaudio_pl.Source.{Source, present, set_source_state, SourceData}
use audioreach_pulseaudio_pl.Pal.{History, Pal, PalFormats}
use audioreach_pulseaudio_pl.Base.{
  Bool, arith, is_some, true, Option, false, none, some, ℕ, ℤ, ◌∙◌, ◌≡◌, refl,
}
use audioreach_pulseaudio_pl.Sink.{PortDeviceData, SinkStates}
use mathlib.Core.Path.{subst}

-- One request that has a result. A change of port on an opened state comes, by the function's own
-- assertion, only where the source has a handle; a new format comes while no stream is open.
pub data Step (p : Pal) (st : SinkStates) (d : SourceData) (t : History)
    : SourceData → History → Type 0 where
  change_state :
      (a b : ℕ) (r : ℤ) {d' : SourceData} {t' : History}
      → set_source_state p st a b d t ≡ some (r, d', t')
      → Step p st d t d' t'
  change_port :
      (state : ℕ) (port active port' active' : PortDeviceData) (r : ℤ) (s : Source) {s' : Source}
      {t' : History}
      → d ≡ present s
      → set_source_port p st state port active s t ≡ some (r, s', port', active', t')
      → Step p st d t (present s') t'
  change_format :
      (formats : PalFormats) (u : Pulse) (metadata avoid : ℕ) (spec : SampleSpec)
      (ps ps' : PaSource) (s : Source) {s' : Source} {t' : History}
      → d ≡ present s
      → s.pal_source_opened ≡ false
      → reconfigure p st formats u metadata avoid spec ps s t ≡ some (ps', s', t')
      → Step p st d t (present s') t'
  change_volume :
      (u : Pulse) (g : Gains) (is_running : Bool) (v v' : CVolume) (s : Source) {s' : Source}
      {t' : History}
      → d ≡ present s
      → set_source_volume p u g is_running v s t ≡ some (v', s', t')
      → Step p st d t (present s') t'

pub data Reach (p : Pal) (st : SinkStates) (d : SourceData) (t : History)
    : SourceData → History → Type 0 where
  here : Reach p st d t d t
  next :
      {d1 d2 : SourceData} {t1 t2 : History}
      → Reach p st d t d1 t1
      → Step p st d1 t1 d2 t2
      → Reach p st d t d2 t2

abbrev VolumeKeeps : Pal → History → Option (CVolume × Source × History) → Type 0
VolumeKeeps p t none = Unit {0}
VolumeKeeps p t (some (v, s, t')) = Keeps p t (present s) t'

live-handle :
    (p : Pal) (s : Source) (t : History)
    → IsValid p s t
    → is_some s.stream_handle ≡ true
    → holds (live p t) s.stream_handle ≡ true
live-handle p s t v h = ground arith

set_source_volume-Keeps :
    (p : Pal) (u : Pulse) (g : Gains) (is_running : Bool) (w : CVolume) (s : Source) (t : History)
    → IsValid p s t
    → VolumeKeeps p t (set_source_volume p u g is_running w s t)
unfolding set_source_volume
set_source_volume-Keeps p u g is_running w s t v = ground (arith, live-handle p s t v)

Step-Keeps :
    (p : Pal) (st : SinkStates) (d : SourceData) (t : History) {d' : SourceData} {t' : History}
    → Step p st d t d' t'
    → IsValidData p d t
    → Keeps p t d' t'
Step-Keeps p st d t (change_state a b r e) v =
    subst (StateKeeps p t) e (set_source_state-Keeps p st a b d t v)
Step-Keeps p st d t (change_port state port active port' active' r s g e) v =
    subst (PortKeeps p t) e
      (set_source_port-Keeps p st state port active s t (subst (λ x. IsValidData p x t) g v))
Step-Keeps p st d t (change_format formats u metadata avoid spec ps ps' s g c e) v =
    subst (ReconfigureKeeps p t) e (
      reconfigure-Keeps p st formats u metadata avoid spec ps s t
        (subst (λ x. IsValidData p x t) g v) c)
Step-Keeps p st d t (change_volume u g is_running w w' s c e) v =
    subst (VolumeKeeps p t) e
      (set_source_volume-Keeps p u g is_running w s t (subst (λ x. IsValidData p x t) c v))

-- Whatever PAL answers, a valid source stays valid under every sequence of the changes of state, of
-- port, of volume and, while no stream is open, of format that have a result (a stored handle is an open stream,
-- an opened source has one, a source that is not in standby is opened, or the source's data was freed),
-- and every call that it makes on a stream is made while it is open.
pub Reach-safe_source :
    (p : Pal) (st : SinkStates) (d : SourceData) (t : History) {d' : SourceData} {t' : History}
    → IsValidData p d t
    → Reach p st d t d' t'
    → IsValidData p d' t' × (safe p t' ≡ safe p t)
Reach-safe_source p st d t v here = (v, refl)
Reach-safe_source p st d t v (next {d1 = d1} {t1 = t1} r step) =
    let before = Reach-safe_source p st d t v r in
    let k = Step-Keeps p st d1 t1 step before.0 in (k.0, k.1 ∙ before.1)

-- A valid source whose data was not freed has a result for every change of state: no assertion fails,
-- nothing is read through NULL, and the source stays valid.
pub set_source_state_returns :
    (p : Pal) (st : SinkStates) (a b : ℕ) (s : Source) (t : History)
    → IsValid p s t
    → (r : ℤ) × (d : SourceData) × (t' : History) × (set_source_state p st a b (present s) t
        ≡ some (r, d, t'))
      × IsValidData p d t'
set_source_state_returns p st a b s t v =
    result (set_source_state p st a b (present s) t) (set_source_state-Returns p st a b s t v)
  where
    result :
        (o : Option (ℤ × SourceData × History))
        → Returns p t o
        → (r : ℤ) × (d : SourceData) × (t' : History) × (o ≡ some (r, d, t')) × IsValidData p d t'
    result none k = elim k [ ]
    result (some (r, d, t')) k = (r, d, t', refl, k.0)
