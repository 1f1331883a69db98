-- ===== src/Sink/Write.antt =====
-- `write_chunk` of pal-sink.c: one chunk of audio on its way to PAL, in one write for PCM, in as many
-- as PAL takes for a compressed stream.
--
-- Each round reads the atomic `close_output` and, under the mutex, the stream's handle; the control
-- thread may change both between rounds, so what is read is a function `view` of the history. The
-- wait for that thread and the wait for PAL's event change nothing else. Offsets are relative to the
-- start of the chunk; sizes are `size_t`, the code of a write is an `int`.
pub mod Ends
pub mod Ranges
use audioreach_pulseaudio_pl.Pal.{Handle, History, Pal, call, stream_write}
use audioreach_pulseaudio_pl.Base.{
  Bool, Option, false, if◌then◌else◌, is_negative, length, ltb_ℤ, negsuc, none, some, suc, to_int32,
  to_uint64, true, zero, ℕ, ℤ, ◌%◌, ◌&&◌, ◌+◌, ◌-◌, ◌^◌,
}

-- How the loop leaves: with the mutex held or not, the count of bytes written, and the history.
pub record WriteEnd : Type 0 where
  pub mutex_held : Bool
  pub bytes_written : ℕ
  pub history : History

-- A round ends the loop, or leaves an offset and a size for the next one.
pub data Round : Type 0 where
  done : WriteEnd → Round
  again : ℕ → ℕ → History → Round

-- `size - rc` in `size_t`, and `buffer + sink_buffer_size - size`, where the buffer has moved
-- already.
abbrev pub rest_size : ℕ → ℤ → ℕ
rest_size size rc = (size + (2 ^ 64 - to_uint64 rc)) % 2 ^ 64

abbrev pub rest_offset : ℕ → ℕ → ℕ → ℕ
rest_offset length offset size' = offset + length - size'

-- After the write of a round, when the mutex is held: an error breaks out of the loop at once.
unfoldable pub after_write : Bool → ℕ → ℕ → ℕ → ℕ → ℤ → History → Round
after_write compressed length offset size written rc t =
    if is_negative rc
    then done (record { mutex_held = true; bytes_written = written; history = t })
    else if compressed && ltb_ℤ rc (to_int32 size)
    then again (rest_offset length offset (rest_size size rc)) (rest_size size rc) t
    else done (record {
      mutex_held = false;
      bytes_written = (written + to_uint64 rc) % 2 ^ 64;
      history = t;
    })

-- A round with the values that it reads: is the output being closed, and the handle. Without a
-- handle the code of the write is -1.
unfoldable pub round_with : Pal → Bool → Bool → Handle → ℕ → ℕ → ℕ → ℕ → History → Round
round_with p compressed true handle length offset size written t =
    done (record { mutex_held = false; bytes_written = written; history = t })
round_with p compressed false none length offset size written t = done (record {
  mutex_held = false;
  bytes_written = (written + to_uint64 (negsuc 0)) % 2 ^ 64;
  history = t;
})
round_with p compressed false (some h) length offset size written t =
    let (rc, t1) = call p (stream_write (some h) offset size) t in
    after_write compressed length offset size written rc t1

unfoldable pub write_round :
    Pal → (History → Bool × Handle) → Bool → ℕ → ℕ → ℕ → ℕ → History → Round
write_round p view compressed length offset size written t =
    round_with p compressed (view t).0 (view t).1 length offset size written t

-- The loop, with fuel; `none` means that the fuel ran out.
unfoldable pub write_loop :
    Pal → (History → Bool × Handle) → Bool → ℕ → ℕ → ℕ → ℕ → ℕ → History → Option WriteEnd
write_loop p view compressed length written zero offset size t = none
write_loop p view compressed length written (suc fuel) offset size t =
    elim (write_round p view compressed length offset size written t) [
      | done e ↦ some e
      | again offset' size' t' ↦ write_loop p view compressed length written fuel offset' size' t'
    ]

-- A chunk of the given length.
unfoldable pub write_chunk :
    Pal → (History → Bool × Handle) → Bool → ℕ → ℕ → ℕ → History → Option WriteEnd
write_chunk p view compressed length written fuel t =
    write_loop p view compressed length written fuel 0 length t
