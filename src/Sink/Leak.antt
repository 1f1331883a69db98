-- ===== src/Sink/Leak.antt =====
-- `pa_pal_sink_start` and `pa_pal_sink_standby` of pal-sink.c, and the streams that they open and
-- close.

use audioreach_pulseaudio_pl.Pal.{
  History, Pal, stream_start, Handle, PalDevice, StreamAttributes, stream_open,
  stream_set_buffer_size,
}
use audioreach_pulseaudio_pl.Pal.Live.{live}
use audioreach_pulseaudio_pl.Base.{
  List, arith, failed, false, none, some, true, ℕ, ℤ, ◌∷◌, ◌≡◌, ◌⊎◌, Bool-cases, inl, inr, pos,
  refl, ◌∙◌, [], ap, length, suc, zero, ◌+◌,
}
use audioreach_pulseaudio_pl.Sink.{
  Sink, cleanup, close_pal_sink, open_pal_sink, set_codec_param, start_codec, sink_start,
  start_open, sink_standby,
}

-- What PAL answers to the buffer size of the stream that a start opens.
abbrev pub size_answer : Pal → Sink → History → ℤ
size_answer p s t =
    p.rc (stream_open s.stream_attributes (s.pal_device ∷ []) ∷ t)
      (stream_set_buffer_size (some (p.handle t)) s.buffer_size s.buffer_count)

-- The ways in which an open can end: refused; opened, and then the buffer size is refused; done.
open_cases :
    (p : Pal) (s : Sink) (t : History)
    → ((failed (open_pal_sink p s t).0 ≡ true)
        × (live p (open_pal_sink p s t).2 ≡ live p t)
        × ((open_pal_sink p s t).1.pal_sink_opened ≡ s.pal_sink_opened)
        × ((open_pal_sink p s t).1.stream_handle ≡ none)
        × ((open_pal_sink p s t).1.standby ≡ s.standby))
      ⊎ ((failed (open_pal_sink p s t).0 ≡ true)
          × ((open_pal_sink p s t).0 ≡ size_answer p s t)
          × (live p (open_pal_sink p s t).2 ≡ p.handle t ∷ live p t)
          × ((open_pal_sink p s t).1.pal_sink_opened ≡ s.pal_sink_opened)
          × ((open_pal_sink p s t).1.stream_handle ≡ some (p.handle t))
          × ((open_pal_sink p s t).1.standby ≡ s.standby))
      ⊎ ((failed (open_pal_sink p s t).0 ≡ false)
          × (live p (open_pal_sink p s t).2 ≡ p.handle t ∷ live p t)
          × ((open_pal_sink p s t).1.pal_sink_opened ≡ true)
          × ((open_pal_sink p s t).1.stream_handle ≡ some (p.handle t))
          × ((open_pal_sink p s t).1.standby ≡ s.standby))
unfolding open_pal_sink
open_cases p s t = ground arith

-- After the open: a later failure closes the stream again.
close_again :
    (p : Pal) (rc : ℤ) (s : Sink) (t : History) (h : ℕ) (before : List ℕ)
    → s.pal_sink_opened ≡ true
    → s.stream_handle ≡ some h
    → live p t ≡ h ∷ before
    → (live p (cleanup p rc s t).2 ≡ before)
      × ((cleanup p rc s t).1.pal_sink_opened ≡ false)
      × ((cleanup p rc s t).1.stream_handle ≡ none)
      × ((cleanup p rc s t).0 ≡ rc)
unfolding cleanup close_pal_sink
close_again p rc s t h before o e l = ground arith

live-start_codec : (p : Pal) (s : Sink) (t : History) → live p (start_codec p s t).1 ≡ live p t
unfolding start_codec set_codec_param
live-start_codec p s t = ground arith

-- How a start of a closed sink ends.
abbrev pub StartOutcome : Pal → Sink → History → ℤ × Sink × History → Type 0
StartOutcome p s t (rc, s', t') =
    ((failed rc ≡ true)
      × (live p t' ≡ live p t)
      × (s'.pal_sink_opened ≡ false)
      × (s'.stream_handle ≡ none))
    ⊎ ((failed rc ≡ true)
        × (rc ≡ size_answer p s t)
        × (live p t' ≡ p.handle t ∷ live p t)
        × (s'.pal_sink_opened ≡ false)
        × (s'.stream_handle ≡ some (p.handle t)))
    ⊎ ((rc ≡ pos 0)
        × (live p t' ≡ p.handle t ∷ live p t)
        × (s'.pal_sink_opened ≡ true)
        × (s'.stream_handle ≡ some (p.handle t))
        × (s'.standby ≡ false))

-- The steps after an open that succeeded.
module _ (p : Pal) (s : Sink) (t : History) (closed : s.pal_sink_opened ≡ false)
    (idle : s.standby ≡ true) (opens : failed (open_pal_sink p s t).0 ≡ false)
    (l : live p (open_pal_sink p s t).2 ≡ p.handle t ∷ live p t)
    (o : (open_pal_sink p s t).1.pal_sink_opened ≡ true)
    (h : (open_pal_sink p s t).1.stream_handle ≡ some (p.handle t)) where
  abbrev s1 : Sink
  s1 = (open_pal_sink p s t).1

  abbrev t1 : History
  t1 = (open_pal_sink p s t).2

  abbrev t2 : History
  t2 = (start_codec p s1 t1).1

  abbrev t3 : History
  t3 = stream_start s1.stream_handle ∷ t2

  live-t2 : live p t2 ≡ p.handle t ∷ live p t
  live-t2 = live-start_codec p s1 t1 ∙ l

  closed_again :
      (rc : ℤ) (t' : History)
      → failed rc ≡ true
      → live p t' ≡ p.handle t ∷ live p t
      → StartOutcome p s t (cleanup p rc s1 t')
  closed_again rc t' f k =
      let (a, b, c, d) = close_again p rc s1 t' (p.handle t) (live p t) o h k in
      inl (rw d f, a, b, c)

  later_steps : StartOutcome p s t (sink_start p s t)
  unfolding sink_start start_open
  later_steps = elim (Bool-cases (failed (start_codec p s1 t1).0)) [
    | inl e ↦ simp (idle, closed, opens, e) (closed_again (start_codec p s1 t1).0 t2 e live-t2)
    | inr e ↦ elim (Bool-cases (failed (p.rc t2 (stream_start s1.stream_handle)))) [
      | inl e' ↦
          simp (idle, closed, opens, e, e')
            (closed_again (p.rc t2 (stream_start s1.stream_handle)) t3 e' live-t2)
      | inr e' ↦ simp (idle, closed, opens, e, e') (inr (inr (refl, live-t2, o, h, refl)))
    ]
  ]

-- A start of a closed sink ends in one of three ways. It succeeds, with one more stream open, which
-- the sink holds; or it fails and leaves open exactly the streams that were open before; or it fails
-- with one more stream open: PAL opened the stream and refused the buffer size, which is the code
-- returned, and the sink, which is not marked as opened, does not close it.
pub sink_start_lem :
    (p : Pal) (s : Sink) (t : History)
    → s.standby ≡ true
    → s.pal_sink_opened ≡ false
    → StartOutcome p s t (sink_start p s t)
unfolding sink_start start_open cleanup
sink_start_lem p s t idle closed = elim (open_cases p s t) [
  | inl (f, l, o, h, b) ↦ simp (idle, closed, f, o) (inl (refl, l, refl, h))
  | inr (inl (f, q, l, o, h, b)) ↦ simp (idle, closed, f, o) (inr (inl (refl, q, l, refl, h)))
  | inr (inr (f, l, o, h, b)) ↦ later_steps p s t closed idle f l o h
]

stood_closed :
    (p : Pal) (s : Sink) (t : History)
    → s.pal_sink_opened ≡ false
    → sink_standby p s t ≡ (pos 0, s, t)
unfolding sink_standby
stood_closed p s t o = ground arith

stood_opened :
    (p : Pal) (s : Sink) (t : History) (h : ℕ) (before : List ℕ)
    → s.pal_sink_opened ≡ true
    → s.stream_handle ≡ some h
    → live p t ≡ h ∷ before
    → (live p (sink_standby p s t).2 ≡ before) × ((sink_standby p s t).1.pal_sink_opened ≡ false)
unfolding sink_standby close_pal_sink
stood_opened p s t h before o e l = ground arith

-- A start followed by standby leaves open exactly the streams that were open before, unless PAL
-- refused the buffer size; the sink is not opened then.
standby-start :
    (p : Pal) (s : Sink) (t : History)
    → s.standby ≡ true
    → s.pal_sink_opened ≡ false
    → let (rc, s1, t1) = sink_start p s t in
      let (rc', s2, t2) = sink_standby p s1 t1 in
      ((live p t2 ≡ live p t) ⊎ (failed rc ≡ true) × (live p t2 ≡ p.handle t ∷ live p t))
      × (s2.pal_sink_opened ≡ false)
standby-start p s t idle closed = stood (sink_start p s t) (sink_start_lem p s t idle closed)
  where
    stood :
        (out : ℤ × Sink × History)
        → StartOutcome p s t out
        → ((live p (sink_standby p out.1 out.2).2 ≡ live p t)
            ⊎ (failed out.0 ≡ true)
              × (live p (sink_standby p out.1 out.2).2 ≡ p.handle t ∷ live p t))
          × ((sink_standby p out.1 out.2).1.pal_sink_opened ≡ false)
    stood (rc, s1, t1) (inl (f, l, o, h)) = let k = stood_closed p s1 t1 o in (inl (rw k l), rw k o)
    stood (rc, s1, t1) (inr (inl (f, q, l, o, h))) =
        let k = stood_closed p s1 t1 o in (inr (f, rw k l), rw k o)
    stood (rc, s1, t1) (inr (inr (e, l, o, h, b))) =
        let (a, c) = stood_opened p s1 t1 (p.handle t) (live p t) o h l in (inl a, c)

-- The starts of a sink, one after the other, as PulseAudio's requests to resume it come.
unfoldable pub starts : ℕ → Pal → Sink → History → Sink × History
starts zero p s t = (s, t)
starts (suc n) p s t = let (rc, s', t') = sink_start p s t in starts n p s' t'

refused_start :
    (p : Pal) (s : Sink) (t : History)
    → ((a : StreamAttributes) (ds : List PalDevice) (u : History)
        → failed (p.rc u (stream_open a ds)) ≡ false)
    → ((h : Handle) (a b : ℕ) (u : History) → failed (p.rc u (stream_set_buffer_size h a b)) ≡ true)
    → s.standby ≡ true
    → s.pal_sink_opened ≡ false
    → (live p (sink_start p s t).2 ≡ p.handle t ∷ live p t)
      × ((sink_start p s t).1.standby ≡ true)
      × ((sink_start p s t).1.pal_sink_opened ≡ false)
unfolding sink_start start_open open_pal_sink cleanup
refused_start p s t opens refuses idle closed = ground (
  arith,
  opens s.stream_attributes (s.pal_device ∷ []) t,
  refuses (some (p.handle t)) s.buffer_size s.buffer_count
      (stream_open s.stream_attributes (s.pal_device ∷ []) ∷ t),
)

-- While PAL opens streams and refuses their buffer size, each start of a closed sink leaves one more
-- stream open: after n starts there are n more than before, and the sink still counts as not
-- opened, so that no standby closes any of them.
pub starts_leak :
    (n : ℕ) (p : Pal) (s : Sink) (t : History)
    → ((a : StreamAttributes) (ds : List PalDevice) (u : History)
        → failed (p.rc u (stream_open a ds)) ≡ false)
    → ((h : Handle) (a b : ℕ) (u : History) → failed (p.rc u (stream_set_buffer_size h a b)) ≡ true)
    → s.standby ≡ true
    → s.pal_sink_opened ≡ false
    → (length (live p (starts n p s t).1) ≡ n + length (live p t))
      × ((starts n p s t).0.pal_sink_opened ≡ false)
unfolding starts
starts_leak zero p s t opens refuses idle closed = (omega arith, closed)
starts_leak (suc n) p s t opens refuses idle closed =
    let (l, i, c) = refused_start p s t opens refuses idle closed in
    let k = starts_leak n p (sink_start p s t).1 (sink_start p s t).2 opens refuses i c in
    (omega (arith, k.0, ap (length {A = ℕ}) l), k.1)
