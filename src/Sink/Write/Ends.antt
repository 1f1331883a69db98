-- ===== src/Sink/Write/Ends.antt =====
-- `write_chunk` of pal-sink.c: the rounds one by one, and the end of a PCM chunk.
use audioreach_pulseaudio_pl.Pal.{Handle, History, Pal, stream_write}
use audioreach_pulseaudio_pl.Base.{
  Bool, Bool-cases, false, if◌then◌else◌, inl, inr, is_negative, length, negsuc, none, pos, refl,
  some, suc, sym, to_uint64, true, ℕ, ℤ, ◌%◌, ◌+◌, ◌-◌, ◌<◌, ◌^◌, ◌∷◌, ◌≡◌, arith,
}
use audioreach_pulseaudio_pl.Sink.Write.{
  WriteEnd, after_write, again, done, round_with, write_chunk, write_loop, write_round, rest_offset,
  rest_size,
}

-- What a PCM chunk comes to, by the values that its one round reads: nothing is written when the
-- output is being closed; nothing when there is no stream, and then the count goes down by one, as
-- the code -1 is added to it; else the whole chunk goes to PAL in one write, and the count grows by
-- what PAL reports, unless PAL reports an error, which leaves the mutex held.
abbrev pub PcmEnd : Pal → Bool → Handle → ℕ → ℕ → History → WriteEnd → Type 0
PcmEnd p true handle length written t e =
    (e.history ≡ t) × (e.mutex_held ≡ false) × (e.bytes_written ≡ written)
PcmEnd p false none length written t e =
    (e.history ≡ t) × (e.mutex_held ≡ false) × (e.bytes_written ≡ (written + (2 ^ 64 - 1)) % 2 ^ 64)
PcmEnd p false (some h) length written t e =
    let rc = p.rc t (stream_write (some h) 0 length) in
    (e.history ≡ stream_write (some h) 0 length ∷ t)
    × (e.mutex_held ≡ is_negative rc)
    × (e.bytes_written ≡ (if is_negative rc then written else (written + to_uint64 rc) % 2 ^ 64))

pcm_round :
    (p : Pal) (closing : Bool) (handle : Handle) (length written : ℕ) (t : History)
    → (e : WriteEnd) × (round_with p false closing handle length 0 length written t ≡ done e)
      × PcmEnd p closing handle length written t e
unfolding round_with after_write
pcm_round p true handle length written t = (_, refl, (refl, refl, refl))
pcm_round p false none length written t = (_, refl, (refl, refl, refl))
pcm_round p false (some h) length written t =
    elim (Bool-cases (is_negative (p.rc t (stream_write (some h) 0 length)))) [
      | inl e ↦ (
        record {
          mutex_held = true;
          bytes_written = written;
          history = stream_write (some h) 0 length ∷ t;
        },
        rw e,
        (refl, sym e, rw e),
      )
      | inr e ↦ (
        record {
          mutex_held = false;
          bytes_written = (written + to_uint64 (p.rc t (stream_write (some h) 0 length))) % 2 ^ 64;
          history = stream_write (some h) 0 length ∷ t;
        },
        rw e,
        (refl, sym e, rw e),
      )
    ]

pub loop_done :
    (p : Pal) (view : History → Bool × Handle) (c : Bool) (total written fuel offset size : ℕ)
    (t : History) (e : WriteEnd)
    → write_round p view c total offset size written t ≡ done e
    → write_loop p view c total written (suc fuel) offset size t ≡ some e
unfolding write_loop
loop_done p view c total written fuel offset size t e h = rw (h, write_loop)

pub loop_again :
    (p : Pal) (view : History → Bool × Handle) (c : Bool) (total written fuel offset size : ℕ)
    (t : History) (offset' size' : ℕ) (t' : History)
    → write_round p view c total offset size written t ≡ again offset' size' t'
    → write_loop p view c total written (suc fuel) offset size t
      ≡ write_loop p view c total written fuel offset' size' t'
unfolding write_loop
loop_again p view c total written fuel offset size t offset' size' t' h = rw (h, write_loop)

pcm_done :
    (p : Pal) (view : History → Bool × Handle) (total written : ℕ) (t : History)
    → (e : WriteEnd) × (write_round p view false total 0 total written t ≡ done e)
      × PcmEnd p (view t).0 (view t).1 total written t e
unfolding write_round
pcm_done p view total written t = pcm_round p (view t).0 (view t).1 total written t

-- A PCM chunk takes one round, whatever PAL answers: with any fuel but none the loop ends, and its
-- end is the one that the values read at its start determine.
pub write_chunk_pcm :
    (p : Pal) (view : History → Bool × Handle) (total written fuel : ℕ) (t : History)
    → (e : WriteEnd) × (write_chunk p view false total written (suc fuel) t ≡ some e)
      × PcmEnd p (view t).0 (view t).1 total written t e
unfolding write_chunk
write_chunk_pcm p view total written fuel t =
    let (e, r, d) = pcm_done p view total written t in
    (e, loop_done p view false total written fuel 0 total t e r, d)

-- What PAL took in part.
abbrev pub TookPart : ℤ → ℕ → ℕ → ℕ → ℕ → History → History → Type 0
TookPart rc total offset size offset' t' t =
    (r : ℕ) × (rc ≡ pos r) × (r < size) × (offset' ≡ rest_offset total offset (size - r)) × (t' ≡ t)

abbrev pub rc_part : ℤ → ℕ
rc_part (pos r) = r
rc_part (negsuc n) = 0

-- A PCM stream is never written again.
pub not_again :
    (total offset size written : ℕ) (rc : ℤ) (t : History) (offset' size' : ℕ) (t' : History)
    → after_write false total offset size written rc t ≡ again offset' size' t'
    → ⊥
unfolding after_write
not_again total offset size written rc t offset' size' t' e = ground arith

part_lt :
    (total offset size written r : ℕ) (t : History) (offset' size' : ℕ) (t' : History)
    → size < 2 ^ 31
    → after_write true total offset size written (pos r) t ≡ again offset' size' t'
    → r < size
unfolding after_write
part_lt total offset size written r t offset' size' t' b e = ground arith

pub rest_size_lem : (size r : ℕ) → size < 2 ^ 31 → r < size → rest_size size (pos r) ≡ size - r
rest_size_lem size r b l = omega arith

pub after_write_again :
    (total offset size written : ℕ) (rc : ℤ) (t : History) (offset' size' : ℕ) (t' : History)
    → size < 2 ^ 31
    → after_write true total offset size written rc t ≡ again offset' size' t'
    → TookPart rc total offset size offset' t' t × (size' ≡ size - (rc_part rc))
unfolding after_write
after_write_again total offset size written (pos r) t offset' size' t' b e =
    let l = part_lt total offset size written r t offset' size' t' b e in
    let q = rest_size_lem size r b l in
    ((r, refl, l, ground (arith, q), ground arith), ground (arith, q))
after_write_again total offset size written (negsuc r) t offset' size' t' b e = absurd (cc e)
