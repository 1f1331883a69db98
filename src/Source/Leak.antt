-- ===== src/Source/Leak.antt =====
-- Streams that pal-source.c loses, and what it does with the handle that is left.
use mathlib.Core.Path.{subst, sym, ap}
use audioreach_pulseaudio_pl.Sink.{SinkStates}
use audioreach_pulseaudio_pl.Formats.{Encoding}
use audioreach_pulseaudio_pl.Pal.Live.{live}
use audioreach_pulseaudio_pl.Source.Reconfigure.{restart_pal_source}
use audioreach_pulseaudio_pl.Channel.{ChannelMap}
use audioreach_pulseaudio_pl.Source.{
  Source, SourceData, freed, open_pal_source, source_start, set_source_state,
}
use audioreach_pulseaudio_pl.Source.Steps.{
  Reach, here, next, Step, change_format, change_port, change_state, change_volume,
}
use audioreach_pulseaudio_pl.Sink.Rates.{SampleSpec}
use audioreach_pulseaudio_pl.Base.{
  Bool, [], failed, false, mem, pos, refl, some, true, ℕ, ◌∷◌, ◌≡◌, Option, arith, none, ℤ, ◌∙◌,
}
use audioreach_pulseaudio_pl.Pal.{History, Pal, PalFormats, stream_open, stream_set_buffer_size}

abbrev Unchanged : Bool → History → Option (ℤ × SourceData × History) → Type 0
Unchanged o t none = Unit {0}
Unchanged o t (some (r, d, t')) = (d ≡ freed o) × (t' ≡ t)

freed-Unchanged :
    (p : Pal) (st : SinkStates) (a b : ℕ) (o : Bool) (t : History)
    → Unchanged o t (set_source_state p st a b (freed o) t)
unfolding set_source_state
freed-Unchanged p st a b o t = ground arith

freed-Step :
    (p : Pal) (st : SinkStates) (o : Bool) (d : SourceData) (t : History) {d' : SourceData}
    {t' : History}
    → Step p st d t d' t'
    → d ≡ freed o
    → (d' ≡ freed o) × (t' ≡ t)
freed-Step p st o d t (change_state a b r e) q = subst (Unchanged o t) e (
    subst (λ x. Unchanged o t (set_source_state p st a b x t)) (sym q)
      (freed-Unchanged p st a b o t))
freed-Step p st o d t (change_port state port active port' active' r s g e) q = absurd (cc)
freed-Step p st o d t (change_format formats u metadata avoid spec ps ps' s g c e) q = absurd (cc)
freed-Step p st o d t (change_volume u g is_running v v' s c e) q = absurd (cc)

-- A source whose data was freed takes no step that changes anything.
freed-stays :
    (p : Pal) (st : SinkStates) (o : Bool) (t : History) {d' : SourceData} {t' : History}
    → Reach p st (freed o) t d' t'
    → (d' ≡ freed o) × (t' ≡ t)
freed-stays p st o t here = (refl, refl)
freed-stays p st o t (next {d1 = d1} {t1 = t1} r step) =
    let before = freed-stays p st o t r in
    let k = freed-Step p st o d1 t1 step before.0 in (k.0, k.1 ∙ before.1)

-- What PAL answers to the buffer size of the stream that a start opens.
abbrev pub size_answer : Pal → Source → History → ℤ
size_answer p s t =
    p.rc (stream_open s.stream_attributes (s.pal_device ∷ []) ∷ t)
      (stream_set_buffer_size (some (p.handle t)) s.buffer_size s.buffer_count)

start_frees :
    (p : Pal) (s : Source) (t : History)
    → s.standby ≡ true
    → s.pal_source_opened ≡ false
    → failed (p.rc t (stream_open s.stream_attributes (s.pal_device ∷ []))) ≡ false
    → failed (size_answer p s t) ≡ true
    → (source_start p s t ≡ (size_answer p s t, freed true, (open_pal_source p s t).2))
      × (mem (p.handle t) (live p (open_pal_source p s t).2) ≡ true)
unfolding source_start open_pal_source
start_frees p s t a b c e = ground arith

-- A source in standby whose stream opens but whose buffer size PAL refuses loses the stream: the start
-- returns PAL's refusal of the size and frees the source's data, and the stream stays open under every sequence of
-- later requests.
pub start_leaks :
    (p : Pal) (st : SinkStates) (s : Source) (t : History) {d' : SourceData} {t' : History}
    → s.standby ≡ true
    → s.pal_source_opened ≡ false
    → failed (p.rc t (stream_open s.stream_attributes (s.pal_device ∷ []))) ≡ false
    → failed (size_answer p s t) ≡ true
    → Reach p st (source_start p s t).1 (source_start p s t).2 d' t'
    → ((source_start p s t).0 ≡ size_answer p s t)
      × (d' ≡ freed true)
      × (mem (p.handle t) (live p t') ≡ true)
unfolding source_start open_pal_source
start_leaks p st s t {d' = d'} {t' = t'} a b c e r =
    let f = start_frees p s t a b c e in
    let k =
      freed-stays p st true (open_pal_source p s t).2
        (subst (λ (x : ℤ × SourceData × History). Reach p st x.1 x.2 d' t') f.0 r) in
    (
      ap (λ (x : ℤ × SourceData × History). x.0) f.0,
      k.0,
      ap (λ (u : History). mem (p.handle t) (live p u)) k.1 ∙ f.1,
    )

-- A source in standby that is already opened, as a first new format leaves it, loses its stream at a
-- second one that succeeds: the stream stays open, and the source holds another.
pub restart_leaks :
    (p : Pal) (formats : PalFormats) (metadata avoid h : ℕ) (e : Encoding) (ss : SampleSpec)
    (map : ChannelMap) (s s' : Source) (t t' : History)
    → s.standby ≡ true
    → s.stream_handle ≡ some h
    → mem h (live p t) ≡ true
    → restart_pal_source p formats metadata avoid e ss map s t ≡ some (pos 0, s', t')
    → (s'.stream_handle ≡ some (p.handle t)) × (mem h (live p t') ≡ true)
unfolding restart_pal_source open_pal_source
restart_leaks p formats metadata avoid h e ss map s s' t t' a b c q = ground arith
