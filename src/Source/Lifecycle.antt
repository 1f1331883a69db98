-- ===== src/Source/Lifecycle.antt =====
-- What the start and the standby of pal-source.c keep.
use audioreach_pulseaudio_pl.Pal.{History, Pal}
use audioreach_pulseaudio_pl.Source.{
  Source, SourceData, close_pal_source, freed, open_pal_source, present, source_standby,
  source_start, start_opened,
}
use audioreach_pulseaudio_pl.Pal.Live.{holds, live, safe}
use audioreach_pulseaudio_pl.Base.{Option, arith, false, is_some, none, some, true, ℤ, ◌≡◌, ◌⊎◌}

-- What holds between the operations: a stored handle is an open stream, an opened source has one, and
-- a source that is not in standby is opened.
pub record IsValid (p : Pal) (s : Source) (t : History) : Type 0 where
  pub handle_live : (s.stream_handle ≡ none) ⊎ (holds (live p t) s.stream_handle ≡ true)
  pub opened_stored : (s.pal_source_opened ≡ false) ⊎ (is_some s.stream_handle ≡ true)
  pub started_opened : (s.standby ≡ true) ⊎ (s.pal_source_opened ≡ true)

abbrev pub IsValidData : Pal → SourceData → History → Type 0
IsValidData p (present s) t = IsValid p s t
IsValidData p (freed b) t = Unit {0}

-- The invariant after a step, and no call on a stream that is not open.
abbrev pub Keeps : Pal → History → SourceData → History → Type 0
Keeps p t d t' = IsValidData p d t' × (safe p t' ≡ safe p t)

-- The step has a result, and keeps.
abbrev pub Returns : Pal → History → Option (ℤ × SourceData × History) → Type 0
Returns p t none = ⊥
Returns p t (some (r, d, t')) = Keeps p t d t'

pub start-IsValid :
    (p : Pal) (s : Source) (t : History)
    → IsValid p s t
    → Keeps p t (source_start p s t).1 (source_start p s t).2
unfolding source_start start_opened open_pal_source
start-IsValid p s t v = ground arith

pub standby-IsValid :
    (p : Pal) (s : Source) (t : History) → IsValid p s t → Returns p t (source_standby p s t)
unfolding source_standby close_pal_source
standby-IsValid p s t v = ground arith
