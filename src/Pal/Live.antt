-- ===== src/Pal/Live.antt =====
-- The streams that a history holds open, and the histories that use no stream after its close:
-- what PalApi.h asks of a client, as functions of the history.
use audioreach_pulseaudio_pl.Base.{
  ℕ, List, [], ◌∷◌, none, some, ◌==◌, if◌then◌else◌, succeeded, Bool, mem, ◌≡◌, false, true, arith,
}
use audioreach_pulseaudio_pl.Pal.{
  Pal, History, stream_open, stream_start, stream_stop, stream_close, stream_pause, stream_flush,
  stream_drain, stream_set_volume, stream_set_device, stream_set_buffer_size,
  stream_set_codec_param, stream_write, set_device_connection, set_btsco, set_a2dp_suspended,
  assertion_failed, Handle, PalCall,
}

abbrev pub erase : ℕ → List ℕ → List ℕ
erase a [] = []
erase a (x ∷ xs) = if x == a then xs else x ∷ erase a xs

-- A close gives the handle up whatever it returns.
abbrev pub live : Pal → History → List ℕ
live p [] = []
live p (stream_open a ds ∷ t) =
    if succeeded (p.rc t (stream_open a ds)) then p.handle t ∷ live p t else live p t
live p (stream_close (some h) ∷ t) = erase h (live p t)
live p (stream_close none ∷ t) = live p t
live p (stream_start h ∷ t) = live p t
live p (stream_stop h ∷ t) = live p t
live p (stream_pause h ∷ t) = live p t
live p (stream_flush h ∷ t) = live p t
live p (stream_drain h ∷ t) = live p t
live p (stream_set_volume h vs ∷ t) = live p t
live p (stream_set_device h d ∷ t) = live p t
live p (stream_set_buffer_size h a b ∷ t) = live p t
live p (stream_set_codec_param h ∷ t) = live p t
live p (stream_write h a b ∷ t) = live p t
live p (set_device_connection d b ∷ t) = live p t
live p (set_btsco q a b ∷ t) = live p t
live p (set_a2dp_suspended b ∷ t) = live p t
live p (assertion_failed ∷ t) = live p t

abbrev pub holds : List ℕ → Handle → Bool
holds l none = false
holds l (some h) = mem h l

-- May the call be made while the streams of the list are open? A call on a stream wants it open.
abbrev pub admissible : List ℕ → PalCall → Bool
admissible l (stream_open a ds) = true
admissible l (stream_start h) = holds l h
admissible l (stream_stop h) = holds l h
admissible l (stream_close h) = holds l h
admissible l (stream_pause h) = holds l h
admissible l (stream_flush h) = holds l h
admissible l (stream_drain h) = holds l h
admissible l (stream_set_volume h vs) = holds l h
admissible l (stream_set_device h d) = holds l h
admissible l (stream_set_buffer_size h a b) = holds l h
admissible l (stream_set_codec_param h) = holds l h
admissible l (stream_write h a b) = holds l h
admissible l (set_device_connection d b) = true
admissible l (set_btsco q a b) = true
admissible l (set_a2dp_suspended b) = true
admissible l assertion_failed = false

-- No call of the history is made on NULL or on a stream that is not open at that time, and no assertion
-- fails.
abbrev pub safe : Pal → History → Bool
safe p [] = true
safe p (c ∷ t) = if admissible (live p t) c then safe p t else false

pub mem-cons_self : (h : ℕ) (l : List ℕ) → mem h (h ∷ l) ≡ true
mem-cons_self h l = ground arith

pub erase-cons_self : (h : ℕ) (l : List ℕ) → erase h (h ∷ l) ≡ l
erase-cons_self h l = ground arith

-- Two open streams may be closed in either order.
pub erase-erase : (a b : ℕ) (l : List ℕ) → erase a (erase b (a ∷ b ∷ l)) ≡ l
erase-erase a b l = ground arith
