-- ===== src/Hfp/Sequences.antt =====
-- The start and stop requests of hfp.c, in any order.
use audioreach_pulseaudio_pl.Loopback.{Btsco, LoopbackConfig}
use audioreach_pulseaudio_pl.Hfp.Lifetime.{IsStarted, IsKeptOrCleared, Outcome, start_hfp_lem}
use audioreach_pulseaudio_pl.Pal.Live.{erase, live, safe}
use audioreach_pulseaudio_pl.Volume.{Floats}
use audioreach_pulseaudio_pl.Pal.{ChInfo, History, Pal, PalFormats, Handle}
use audioreach_pulseaudio_pl.Base.{
  List, [], arith, mem, some, true, ℕ, ◌∷◌, ◌≡◌, Bool, false, inl, inr, none, refl, ℤ, ◌∙◌, ◌⊎◌,
}
use audioreach_pulseaudio_pl.Hfp.{start_hfp, stop_hfp}

pub data HfpOp : Type 0 where
  start : LoopbackConfig → LoopbackConfig → HfpOp
  stop : HfpOp

module _ (p : Pal) (f : Floats) (formats : PalFormats) (junk : ChInfo) where
  -- The requests of a session, in order; their return codes go to the client.
  unfoldable pub run : List HfpOp → Btsco → History → Btsco × History
  run [] b t = (b, t)
  run (start rx tx ∷ ops) b t =
      let (r, b', t') = start_hfp p f formats junk b rx tx t in run ops b' t'
  run (stop ∷ ops) b t = let (r, b', t') = stop_hfp p b t in run ops b' t'

-- NULL, or a stream of the list.
abbrev pub held : List ℕ → Handle → Bool
held l none = true
held l (some h) = mem h l

abbrev without : Handle → List ℕ → List ℕ
without none l = l
without (some h) l = erase h l

-- While the use case is marked as running each stored handle is NULL or an open stream, the transmit
-- stream also once the receive stream is closed.
abbrev pub HoldsStreams : Pal → Btsco → History → Type 0
HoldsStreams p b t =
    (b.is_running ≡ false)
    ⊎ (held (live p t) b.rx_stream_handle ≡ true)
      × (held (without b.rx_stream_handle (live p t)) b.tx_stream_handle ≡ true)

HoldsStreams-of_IsStarted :
    (p : Pal) (b : Btsco) (t : History) (before : List ℕ)
    → IsStarted p b t before
    → HoldsStreams p b t
HoldsStreams-of_IsStarted p b t before s = inr (ground arith, ground arith)

mem_of_erase : (a b : ℕ) (l : List ℕ) → mem a (erase b l) ≡ true → mem a l ≡ true
mem_of_erase a b [] h = h
mem_of_erase a b (x ∷ xs) h = ground (arith, mem_of_erase a b xs)

stop_not_running : (p : Pal) (b : Btsco) (t : History) → (stop_hfp p b t).1.is_running ≡ false
unfolding stop_hfp
stop_not_running p b t = ground arith

safe-stop_running :
    (p : Pal) (b : Btsco) (t : History) (rx tx : Handle)
    → b.rx_stream_handle ≡ rx
    → b.tx_stream_handle ≡ tx
    → held (live p t) rx ≡ true
    → held (without rx (live p t)) tx ≡ true
    → safe p t ≡ true
    → safe p (stop_hfp p b t).2 ≡ true
unfolding stop_hfp
safe-stop_running p b t none none e k i j s = ground arith
safe-stop_running p b t (some rx) none e k i j s = ground arith
safe-stop_running p b t none (some tx) e k i j s = ground arith
safe-stop_running p b t (some rx) (some tx) e k i j s = ground arith

safe-stop_idle :
    (p : Pal) (b : Btsco) (t : History)
    → b.is_running ≡ false
    → safe p (stop_hfp p b t).2 ≡ safe p t
unfolding stop_hfp
safe-stop_idle p b t e = ground arith

stop_keeps :
    (p : Pal) (b : Btsco) (t : History)
    → HoldsStreams p b t
    → safe p t ≡ true
    → HoldsStreams p (stop_hfp p b t).1 (stop_hfp p b t).2 × (safe p (stop_hfp p b t).2 ≡ true)
stop_keeps p b t (inl e) s = (inl (stop_not_running p b t), safe-stop_idle p b t e ∙ s)
stop_keeps p b t (inr (i, j)) s = (
  inl (stop_not_running p b t),
  safe-stop_running p b t b.rx_stream_handle b.tx_stream_handle refl refl i j s,
)

kept_or_cleared :
    (l : List ℕ) (rx tx rx' tx' : Handle)
    → IsKeptOrCleared rx' rx
    → IsKeptOrCleared tx' tx
    → held l rx ≡ true
    → held (without rx l) tx ≡ true
    → (held l rx' ≡ true) × (held (without rx' l) tx' ≡ true)
kept_or_cleared l rx tx rx' tx' (inl e) (inl k) i j = (rw e i, rw (e, k) j)
kept_or_cleared l rx tx rx' tx' (inl e) (inr k) i j = (rw e i, rw k)
kept_or_cleared l rx tx rx' tx' (inr e) (inr k) i j = (rw e, rw k)
kept_or_cleared l none tx rx' tx' (inr e) (inl k) i j = (rw e, rw (e, k) j)
kept_or_cleared l (some h) none rx' tx' (inr e) (inl k) i j = (rw e, rw k)
kept_or_cleared l (some h) (some h') rx' tx' (inr e) (inl k) i j =
    (rw e, rw (e, k) (mem_of_erase h' h l j))

start_keeps :
    (p : Pal) (b : Btsco) (t : History) (out : ℤ × Btsco × History)
    → Outcome p b t out
    → HoldsStreams p b t
    → HoldsStreams p out.1 out.2
start_keeps p b t (r, b', t') (inl (e, same, mark, rx, tx), s) (inl idle) = inl (mark ∙ idle)
start_keeps p b t (r, b', t') (inl (e, same, mark, rx, tx), s) (inr (i, j)) = inr (
    rw same (
      kept_or_cleared (live p t) b.rx_stream_handle b.tx_stream_handle b'.rx_stream_handle
        b'.tx_stream_handle rx tx i j))
start_keeps p b t (r, b', t') (inr (e, good), s) i =
    HoldsStreams-of_IsStarted p b' t' (live p t) good

-- Begun with a use case that is not running or whose stored handles are open streams or NULL, after
-- a history that used only open streams: whatever PAL answers, every sequence of start and stop
-- requests uses only streams that are open, and the stored handles of a use case marked as running
-- are open streams or NULL throughout.
pub run-safe :
    (p : Pal) (f : Floats) (formats : PalFormats) (junk : ChInfo) (ops : List HfpOp) (b : Btsco)
    (t : History)
    → HoldsStreams p b t
    → safe p t ≡ true
    → HoldsStreams p (run p f formats junk ops b t).0 (run p f formats junk ops b t).1
      × (safe p (run p f formats junk ops b t).1 ≡ true)
unfolding run
run-safe p f formats junk [] b t i s = (i, s)
run-safe p f formats junk (start rx tx ∷ ops) b t i s =
    let out = start_hfp p f formats junk b rx tx t in
    let o = start_hfp_lem p f formats junk b rx tx t in
    run-safe p f formats junk ops out.1 out.2 (start_keeps p b t out o i) (o.1 ∙ s)
run-safe p f formats junk (stop ∷ ops) b t i s =
    let out = stop_hfp p b t in
    let k = stop_keeps p b t i s in run-safe p f formats junk ops out.1 out.2 k.0 k.1
