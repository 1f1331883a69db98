-- ===== src/Sink/Write/Ranges.antt =====
-- The rounds of a compressed chunk: that they end, and which parts of the chunk they hand to PAL.
use audioreach_pulseaudio_pl.Sink.Write.{
  Round, WriteEnd, again, done, round_with, write_chunk, write_loop, write_round, after_write,
}
use audioreach_pulseaudio_pl.Base.{
  Bool, ap, arith, false, none, pos, refl, some, suc, true, zero, ℕ, ◌<◌, ◌^◌, ◌∷◌, ◌≡◌, ◌*◌, ◌+◌,
  ◌-◌, ◌∙◌,
}
use audioreach_pulseaudio_pl.Sink.Write.Ends.{
  after_write_again, loop_done, not_again, rc_part, loop_again, rest_size_lem,
}
use audioreach_pulseaudio_pl.Pal.{Handle, History, Pal, stream_write}

round_shorter :
    (p : Pal) (c closing : Bool) (handle : Handle) (total offset size written : ℕ) (t : History)
    (offset' size' : ℕ) (t' : History)
    → ((h a b r : ℕ) (u : History) → p.rc u (stream_write (some h) a b) ≡ pos r → r < b → 0 < r)
    → size < 2 ^ 31
    → round_with p c closing handle total offset size written t ≡ again offset' size' t'
    → size' < size
unfolding round_with
round_shorter p c true handle total offset size written t offset' size' t' progress b e =
    absurd (cc e)
round_shorter p c false none total offset size written t offset' size' t' progress b e =
    absurd (cc e)
round_shorter p false false (some h) total offset size written t offset' size' t' progress b e =
    absurd (
      not_again total offset size written (p.rc t (stream_write (some h) offset size))
        (stream_write (some h) offset size ∷ t) offset' size' t' e)
round_shorter p true false (some h) total offset size written t offset' size' t' progress b e =
    let ((r, q, l, o, u), s) =
      after_write_again total offset size written (p.rc t (stream_write (some h) offset size))
        (stream_write (some h) offset size ∷ t) offset' size' t' b e in
    let k : 0 < r = progress h offset size r t q l in ground (arith, ap rc_part q)

write_loop_ends :
    (p : Pal) (view : History → Bool × Handle) (c : Bool) (total written : ℕ) (fuel offset size : ℕ)
    (t : History)
    → ((h a b r : ℕ) (u : History) → p.rc u (stream_write (some h) a b) ≡ pos r → r < b → 0 < r)
    → size < 2 ^ 31
    → size < fuel
    → (e : WriteEnd) × (write_loop p view c total written fuel offset size t ≡ some e)
unfolding write_round
write_loop_ends p view c total written zero offset size t progress b l = absurd (omega arith)
write_loop_ends p view c total written (suc fuel) offset size t progress b l =
    next (λ o s u b' l'. write_loop_ends p view c total written fuel o s u progress b' l')
      (write_round p view c total offset size written t) refl
  where
    next :
        ((o s : ℕ) (u : History)
          → s < 2 ^ 31
          → s < fuel
          → (e : WriteEnd) × (write_loop p view c total written fuel o s u ≡ some e))
        → (r : Round) → write_round p view c total offset size written t ≡ r
        → (e : WriteEnd) × (write_loop p view c total written (suc fuel) offset size t ≡ some e)
    next ih (done e) q = (e, loop_done p view c total written fuel offset size t e q)
    next ih (again o s u) q =
        let k : s < size =
          round_shorter p c (view t).0 (view t).1 total offset size written t o s u progress b q in
        let (e, r) = ih o s u (omega arith) (omega arith) in
        (e, loop_again p view c total written fuel offset size t o s u q ∙ r)

-- The loop ends: if each write that PAL takes in part takes at least one byte, then one round more
-- than the chunk has bytes is enough, whatever else PAL answers and however the other threads change
-- the handle.
pub write_chunk_ends :
    (p : Pal) (view : History → Bool × Handle) (c : Bool) (total written : ℕ) (t : History)
    → ((h a b r : ℕ) (u : History) → p.rc u (stream_write (some h) a b) ≡ pos r → r < b → 0 < r)
    → total < 2 ^ 31
    → (e : WriteEnd) × (write_chunk p view c total written (suc total) t ≡ some e)
unfolding write_chunk
write_chunk_ends p view c total written t progress b =
    write_loop_ends p view c total written (suc total) 0 total t progress b (omega arith)

-- A round that PAL takes in part.
part_round :
    (p : Pal) (view : History → Bool × Handle) (total offset size written h r : ℕ) (t : History)
    → view t ≡ (false, some h)
    → p.rc t (stream_write (some h) offset size) ≡ pos r
    → r < size
    → size < 2 ^ 31
    → write_round p view true total offset size written t
      ≡ again (offset + total - (size - r)) (size - r) (stream_write (some h) offset size ∷ t)
unfolding write_round round_with after_write
part_round p view total offset size written h r t v q l b =
    rw (v, round_with) (rw (q, after_write) (ground (arith, rest_size_lem size r b l)))

-- The second write of a compressed chunk, after PAL took r1 bytes, starts where the first one ended
-- and goes up to the end of the chunk. But if PAL takes r2 bytes of it, and so again a part, the
-- third write starts at 2 * r1 + r2 in place of r1 + r2: it leaves out the r1 bytes before it, and
-- reads r1 bytes beyond the end of the chunk.
pub write_chunk_parts :
    (p : Pal) (view : History → Bool × Handle) (total written h r1 r2 fuel : ℕ) (t : History)
    → ((u : History) → view u ≡ (false, some h))
    → total < 2 ^ 31
    → p.rc t (stream_write (some h) 0 total) ≡ pos r1
    → r1 < total
    → p.rc (stream_write (some h) 0 total ∷ t) (stream_write (some h) r1 (total - r1)) ≡ pos r2
    → r2 < total - r1
    → let second = stream_write (some h) r1 (total - r1) ∷ stream_write (some h) 0 total ∷ t in
      (write_chunk p view true total written (suc (suc fuel)) t
        ≡ write_loop p view true total written fuel (2 * r1 + r2) (total - r1 - r2) second)
      × ((2 * r1 + r2) + (total - r1 - r2) ≡ total + r1)
unfolding write_chunk
write_chunk_parts p view total written h r1 r2 fuel t v b q1 l1 q2 l2 = (
  loop_again p view true total written (suc fuel) 0 total t (0 + total - (total - r1)) (total - r1)
        (stream_write (some h) 0 total ∷ t)
        (part_round p view total 0 total written h r1 t (v t) q1 l1 b)
      ∙ ap
          (λ o.
            write_loop p view true total written (suc fuel) o (total - r1)
              (stream_write (some h) 0 total ∷ t))
          e1
      ∙ loop_again p view true total written fuel r1 (total - r1)
          (stream_write (some h) 0 total ∷ t) (r1 + total - (total - r1 - r2)) (total - r1 - r2)
          second
          (part_round p view total r1 (total - r1) written h r2 (stream_write (some h) 0 total ∷ t)
            (v (stream_write (some h) 0 total ∷ t)) q2 l2 (omega arith))
      ∙ ap (λ o. write_loop p view true total written fuel o (total - r1 - r2) second) e2,
  omega arith,
)
  where
    second : History
    second = stream_write (some h) r1 (total - r1) ∷ stream_write (some h) 0 total ∷ t

    e1 : 0 + total - (total - r1) ≡ r1
    e1 = omega arith

    e2 : r1 + total - (total - r1 - r2) ≡ 2 * r1 + r2
    e2 = omega arith
