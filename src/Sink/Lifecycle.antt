-- ===== src/Sink/Lifecycle.antt =====
-- What `pa_pal_sink_start` and `pa_pal_sink_standby` of pal-sink.c keep.
use audioreach_pulseaudio_pl.Pal.{Handle, History, Pal, stream_start}
use audioreach_pulseaudio_pl.Sink.{
  Sink, cleanup, close_pal_sink, open_pal_sink, sink_standby, sink_start, start_codec, start_open,
  set_codec_param,
}
use audioreach_pulseaudio_pl.Pal.Live.{erase, holds, live, safe}
use audioreach_pulseaudio_pl.Base.{
  Bool-cases, arith, failed, false, inl, inr, is_some, mem, none, refl, some, true, ℕ, ℤ, ◌∷◌, ◌≡◌,
  ◌⊎◌, Bool, ◌∙◌,
}

-- What holds between the operations: a stored handle is an open stream, an opened sink has one, and
-- a sink that is not in standby is opened. The handle that the assertions ask for follows.
pub record IsValid (p : Pal) (s : Sink) (t : History) : Type 0 where
  pub handle_live : (s.stream_handle ≡ none) ⊎ (holds (live p t) s.stream_handle ≡ true)
  pub opened_stored : (s.pal_sink_opened ≡ false) ⊎ (is_some s.stream_handle ≡ true)
  pub started_opened : (s.standby ≡ true) ⊎ (s.pal_sink_opened ≡ true)

-- What a step promises: the invariant after it, and no call on a stream that is not open.
abbrev pub Keeps : Pal → History → Sink → History → Type 0
Keeps p t s' t' = IsValid p s' t' × (safe p t' ≡ safe p t)

pub open-IsValid :
    (p : Pal) (s : Sink) (t : History)
    → IsValid p s t
    → s.pal_sink_opened ≡ false
    → Keeps p t (open_pal_sink p s t).1 (open_pal_sink p s t).2
unfolding open_pal_sink
open-IsValid p s t v e = ground arith

-- An open that succeeds stores the stream that it opened.
pub open_opened :
    (p : Pal) (s : Sink) (t : History)
    → failed (open_pal_sink p s t).0 ≡ false
    → ((open_pal_sink p s t).1.pal_sink_opened ≡ true)
      × ((open_pal_sink p s t).1.stream_handle ≡ some (p.handle t))
      × (live p (open_pal_sink p s t).2 ≡ p.handle t ∷ live p t)
unfolding open_pal_sink
open_opened p s t e = ground arith

pub close-IsValid :
    (p : Pal) (s : Sink) (t : History) (h : ℕ)
    → s.stream_handle ≡ some h
    → mem h (live p t) ≡ true
    → Keeps p t (close_pal_sink p s t).1 (close_pal_sink p s t).2
      × (live p (close_pal_sink p s t).2 ≡ erase h (live p t))
unfolding close_pal_sink
close-IsValid p s t h e l = ground arith

-- The handle of an opened sink.
pub stored_handle :
    (p : Pal) (s : Sink) (t : History)
    → IsValid p s t
    → s.pal_sink_opened ≡ true
    → (h : ℕ) × (s.stream_handle ≡ some h) × (mem h (live p t) ≡ true)
stored_handle p s t v e = found s.stream_handle refl v.handle_live v.opened_stored
  where
    found :
        (o : Handle)
        → s.stream_handle ≡ o
        → (s.stream_handle ≡ none) ⊎ (holds (live p t) s.stream_handle ≡ true)
        → (s.pal_sink_opened ≡ false) ⊎ (is_some s.stream_handle ≡ true)
        → (h : ℕ) × (s.stream_handle ≡ some h) × (mem h (live p t) ≡ true)
    found none q a b = absurd (ground arith)
    found (some h) q a b = (h, q, ground arith)

pub standby-IsValid :
    (p : Pal) (s : Sink) (t : History)
    → IsValid p s t
    → Keeps p t (sink_standby p s t).1 (sink_standby p s t).2
unfolding sink_standby
standby-IsValid p s t v = elim (Bool-cases s.pal_sink_opened) [
  | inl e ↦ let (h, q, l) = stored_handle p s t v e in simp e (close-IsValid p s t h q l).0
  | inr e ↦ simp e (v, refl)
]

cleanup-IsValid :
    (p : Pal) (rc : ℤ) (s : Sink) (t : History)
    → IsValid p s t
    → Keeps p t (cleanup p rc s t).1 (cleanup p rc s t).2
unfolding cleanup
cleanup-IsValid p rc s t v = elim (Bool-cases s.pal_sink_opened) [
  | inl e ↦ let (h, q, l) = stored_handle p s t v e in simp e (close-IsValid p s t h q l).0
  | inr e ↦ simp e (v, refl)
]

start_open-IsValid :
    (p : Pal) (s : Sink) (t : History)
    → IsValid p s t
    → Keeps p t (start_open p s t).1 (start_open p s t).2
unfolding start_open
start_open-IsValid p s t v = elim (Bool-cases s.pal_sink_opened) [
  | inl e ↦ simp e (v, refl)
  | inr e ↦ simp e (open-IsValid p s t v e)
]

start_open_opened :
    (p : Pal) (s : Sink) (t : History)
    → failed (start_open p s t).0 ≡ false
    → (start_open p s t).1.pal_sink_opened ≡ true
unfolding start_open
start_open_opened p s t h = ground (arith, open_opened p s t)

-- Setting the codec changes no stream.
start_codec-IsValid :
    (p : Pal) (s : Sink) (t : History)
    → IsValid p s t
    → s.pal_sink_opened ≡ true
    → Keeps p t s (start_codec p s t).1 × (live p (start_codec p s t).1 ≡ live p t)
unfolding start_codec set_codec_param
start_codec-IsValid p s t v e = ground arith

start_call-IsValid :
    (p : Pal) (s : Sink) (t : History)
    → IsValid p s t
    → s.pal_sink_opened ≡ true
    → Keeps p t s (stream_start s.stream_handle ∷ t)
start_call-IsValid p s t v e = ground arith

Keeps-trans :
    (p : Pal) (t t1 t2 : History) (s1 s2 : Sink)
    → Keeps p t s1 t1
    → Keeps p t1 s2 t2
    → Keeps p t s2 t2
Keeps-trans p t t1 t2 s1 s2 a b = (b.0, b.1 ∙ a.1)

marked_started :
    (p : Pal) (s : Sink) (t : History) (b : Bool)
    → IsValid p s t
    → s.pal_sink_opened ≡ true
    → IsValid p (record s { restart_in_progress = b; standby = false }) t
marked_started p s t b v o = ground arith

-- The steps of a start that have been made, one after the other.
module _ (p : Pal) (s : Sink) (t : History) (v : IsValid p s t) where
  abbrev s1 : Sink
  s1 = (start_open p s t).1

  abbrev t1 : History
  t1 = (start_open p s t).2

  abbrev t2 : History
  t2 = (start_codec p s1 t1).1

  abbrev t3 : History
  t3 = stream_start s1.stream_handle ∷ t2

  after_open : Keeps p t s1 t1
  after_open = start_open-IsValid p s t v

  module _ (o : s1.pal_sink_opened ≡ true) where
    after_codec : Keeps p t s1 t2
    after_codec =
        Keeps-trans p t t1 t2 s1 s1 after_open (start_codec-IsValid p s1 t1 after_open.0 o).0

    after_start : Keeps p t s1 t3
    after_start =
        Keeps-trans p t t2 t3 s1 s1 after_codec (start_call-IsValid p s1 t2 after_codec.0 o)

  cleaned :
      (rc : ℤ) (t' : History)
      → Keeps p t s1 t'
      → Keeps p t (cleanup p rc s1 t').1 (cleanup p rc s1 t').2
  cleaned rc t' k =
      Keeps-trans p t t' (cleanup p rc s1 t').2 s1 (cleanup p rc s1 t').1 k
        (cleanup-IsValid p rc s1 t' k.0)

  started : s.standby ≡ true → Keeps p t (sink_start p s t).1 (sink_start p s t).2
  unfolding sink_start
  started e = elim (Bool-cases (failed (start_open p s t).0)) [
    | inl e1 ↦ simp (e, e1) (cleaned (start_open p s t).0 t1 after_open)
    | inr e1 ↦
        let o : s1.pal_sink_opened ≡ true = start_open_opened p s t e1 in
        elim (Bool-cases (failed (start_codec p s1 t1).0)) [
          | inl e2 ↦ simp (e, e1, e2) (cleaned (start_codec p s1 t1).0 t2 (after_codec o))
          | inr e2 ↦ elim (Bool-cases (failed (p.rc t2 (stream_start s1.stream_handle)))) [
            | inl e3 ↦
                simp (e, e1, e2, e3)
                  (cleaned (p.rc t2 (stream_start s1.stream_handle)) t3 (after_start o))
            | inr e3 ↦
                simp (e, e1, e2, e3)
                  (marked_started p s1 t3 false (after_start o).0 o, (after_start o).1)
          ]
        ]
  ]

pub start-IsValid :
    (p : Pal) (s : Sink) (t : History)
    → IsValid p s t
    → Keeps p t (sink_start p s t).1 (sink_start p s t).2
unfolding sink_start
start-IsValid p s t v = elim (Bool-cases s.standby) [
  | inl e ↦ started p s t v e
  | inr e ↦ simp e (already p s t v e, refl)
]
  where
    already :
        (p : Pal) (s : Sink) (t : History)
        → IsValid p s t
        → s.standby ≡ false
        → IsValid p (record s { standby = false }) t
    already p s t v e = ground arith
