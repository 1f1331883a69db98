-- ===== src/Sink/Restart/Streams.antt =====
-- The streams that `restart_pal_sink` of pal-sink.c opens and closes.
use audioreach_pulseaudio_pl.Config.Names.{kept}
use audioreach_pulseaudio_pl.Sink.Rates.{SampleFormat, SampleSpec}
use audioreach_pulseaudio_pl.Formats.{Encoding, SndDec, get_pal_format}
use audioreach_pulseaudio_pl.Channel.{ChannelMap, channel_map_to_pal}
use audioreach_pulseaudio_pl.Sink.Restart.{close_first, reopen, restart_pal_sink, with_media}
use audioreach_pulseaudio_pl.Sink.{Sink, SinkStates, close_pal_sink, open_pal_sink}
use audioreach_pulseaudio_pl.Pal.Live.{live, erase}
use audioreach_pulseaudio_pl.Pal.{History, Pal, PalFormats}
use audioreach_pulseaudio_pl.Base.{
  List, Option, arith, failed, false, some, true, ℕ, ℤ, ◌∷◌, ◌≡◌, ◌⊎◌, inl, inr, Bool, Bool-cases,
  ap, if◌then◌else◌, negsuc, not, pos, refl, ◌==◌, ◌∙◌,
}

-- The same streams, or one more.
abbrev pub IsKeptOrMore : List ℕ → List ℕ → Type 0
IsKeptOrMore now kept = (now ≡ kept) ⊎ ((h : ℕ) × (now ≡ h ∷ kept))

-- What opening again leaves: an error, with the streams of before or one more, or one more stream,
-- which the sink holds.
abbrev pub Reopened : Pal → History → ℤ × Sink × History → Type 0
Reopened p t (rc, s', t') =
    (failed rc ≡ true) × IsKeptOrMore (live p t') (live p t)
    ⊎ (failed rc ≡ false)
      × (live p t' ≡ p.handle t ∷ live p t)
      × (s'.stream_handle ≡ some (p.handle t))
      × (s'.pal_sink_opened ≡ true)

open-Reopened : (p : Pal) (s : Sink) (t : History) → Reopened p t (open_pal_sink p s t)
unfolding open_pal_sink
open-Reopened p s t = ground arith

-- One of two errors, or what opening gave.
Reopened-of_branches :
    (p : Pal) (t : History) (unsupported present : Bool) (bad1 bad2 opened : ℤ × Sink × History)
    → (failed bad1.0 ≡ true) × (live p bad1.2 ≡ live p t)
    → (failed bad2.0 ≡ true) × (live p bad2.2 ≡ live p t)
    → Reopened p t opened
    → Reopened p t (if unsupported then bad1 else if present then opened else bad2)
Reopened-of_branches p t true present bad1 bad2 opened e1 e2 o = inl (e1.0, inl e1.1)
Reopened-of_branches p t false true bad1 bad2 opened e1 e2 o = o
Reopened-of_branches p t false false bad1 bad2 opened e1 e2 o = inl (e2.0, inl e2.1)

reopen-Reopened :
    (p : Pal) (formats : PalFormats) (sample_size : SampleFormat → ℕ) (avoid pal_format : ℕ)
    (ss : SampleSpec) (map : ChannelMap) (s : Sink) (t : History)
    → Reopened p t (reopen p formats sample_size avoid pal_format ss map s t)
unfolding reopen
reopen-Reopened p formats sample_size avoid pal_format ss map s t =
    let (present, info) = channel_map_to_pal map s.stream_attributes.out_media_config.ch_info in
    let s1 = with_media formats sample_size avoid ss pal_format info s in
    let s2 = record s1 { compressed = not (pal_format == formats.pcm_s16_le) } in
    Reopened-of_branches p t (pal_format == 0) present (negsuc 0, s, t) (negsuc 0, s1, t)
      (open_pal_sink p s2 t) (refl, refl) (refl, refl) (open-Reopened p s2 t)

close_running :
    (p : Pal) (st : SinkStates) (thread_state : ℕ) (s : Sink) (t : History) (h : ℕ)
    → s.pal_sink_opened ≡ true
    → st.is_opened thread_state ≡ true
    → s.stream_handle ≡ some h
    → live p (close_first p st thread_state s t).2 ≡ erase h (live p t)
unfolding close_first close_pal_sink
close_running p st thread_state s t h o r e = ground arith

close_suspended :
    (p : Pal) (st : SinkStates) (thread_state : ℕ) (s : Sink) (t : History)
    → st.is_opened thread_state ≡ false
    → close_first p st thread_state s t ≡ (pos 0, s, t)
unfolding close_first
close_suspended p st thread_state s t r = ground arith

-- How a restart ends, where the open streams are those of the list once the sink's own is closed.
abbrev pub Restarted : Pal → List ℕ → ℤ × Sink × Option SndDec × History → Type 0
Restarted p kept (rc, s', dec, t') =
    (failed rc ≡ true) × IsKeptOrMore (live p t') kept
    ⊎ (failed rc ≡ false)
      × ((h : ℕ) × (live p t' ≡ h ∷ kept) × (s'.stream_handle ≡ some h))
      × (s'.pal_sink_opened ≡ true)

-- The end of a restart, by what the close and the reopening gave.
restart-Restarted :
    (p : Pal) (kept : List ℕ) (closed reopened : ℤ × Sink × History) (dec dec' : Option SndDec)
    → live p closed.2 ≡ kept
    → Reopened p closed.2 reopened
    → Restarted p kept (
        if failed closed.0
        then (closed.0, closed.1, dec, closed.2)
        else (reopened.0, reopened.1, dec', reopened.2))
restart-Restarted p kept closed reopened dec dec' l (inl (e, n)) =
    elim (Bool-cases (failed closed.0)) [
      | inl f ↦ rw f (inl (f, inl l))
      | inr f ↦ rw f (inl (e, rw l at n))
    ]
restart-Restarted p kept closed reopened dec dec' l (inr (e, n, h, o)) =
    elim (Bool-cases (failed closed.0)) [
      | inl f ↦ rw f (inl (f, inl l))
      | inr f ↦
          rw f
            (inr (e, (p.handle closed.2, n ∙ ap (λ (q : List ℕ). p.handle closed.2 ∷ q) l, h), o))
    ]

module _ (p : Pal) (st : SinkStates) (formats : PalFormats) (sample_size : SampleFormat → ℕ)
    (avoid metadata : ℕ) (encoding : Encoding) (ss : SampleSpec) (map : ChannelMap)
    (thread_state : ℕ) (dec : Option SndDec) (s : Sink) (t : History) where
  -- A restart of an opened sink that holds a stream and whose thread is in an opened state gives up
  -- that stream. It either fails, with the other streams open, or those and one more, or it opens a new
  -- stream, which the sink holds, beside the others.
  pub restart_running :
      (h : ℕ)
      → s.pal_sink_opened ≡ true
      → st.is_opened thread_state ≡ true
      → s.stream_handle ≡ some h
      → Restarted p (erase h (live p t)) (
          restart_pal_sink p st formats sample_size avoid metadata encoding ss map thread_state dec
            s t)
  unfolding restart_pal_sink
  restart_running h o r e =
      let s0 = record s { restart_in_progress = true } in
      let closed = close_first p st thread_state s0 t in
      let format = get_pal_format formats metadata encoding dec in
      restart-Restarted p (erase h (live p t)) closed
        (reopen p formats sample_size avoid format.0 ss map closed.1 closed.2) dec format.1
        (close_running p st thread_state s0 t h o r e)
        (reopen-Reopened p formats sample_size avoid format.0 ss map closed.1 closed.2)

  -- A restart of a sink whose thread is not in an opened state closes nothing. It either
  -- fails, with the streams of before open, or those and one more, or it opens a stream beside all
  -- that were open before, the sink's own included, and stores it in place of that one.
  pub restart_suspended :
      st.is_opened thread_state ≡ false
      → Restarted p (live p t) (
          restart_pal_sink p st formats sample_size avoid metadata encoding ss map thread_state dec
            s t)
  unfolding restart_pal_sink
  restart_suspended r =
      let s0 = record s { restart_in_progress = true } in
      let closed = close_first p st thread_state s0 t in
      let format = get_pal_format formats metadata encoding dec in
      restart-Restarted p (live p t) closed
        (reopen p formats sample_size avoid format.0 ss map closed.1 closed.2) dec format.1
        (ap (λ (q : ℤ × Sink × History). live p q.2) (close_suspended p st thread_state s0 t r))
        (reopen-Reopened p formats sample_size avoid format.0 ss map closed.1 closed.2)
