-- ===== src/ExtJack/Requests.antt =====
-- Requests to the thread of pal-jack-external.c, in any order with its steps.
use audioreach_pulseaudio_pl.ExtJack.Thread.{
  Async, Place, announce_param, firing, is_waiting, new_async, reading, receive_param, thread_step,
  waiting,
}
use audioreach_pulseaudio_pl.Ports.{JackType}
use audioreach_pulseaudio_pl.Base.{
  Option, String, arith, if◌then◌else◌, length, none, refl, some, suc, ℕ, ◌&&◌, ◌+◌, ◌≡◌, ◌≤◌,
  false, true,
}
use mathlib.Core.Path.{subst}

-- The steps of the handler and of the thread in any order. The numbers count the requests announced and
-- the returns of the wait without a signal.
pub data Run (a : Async) : ℕ → ℕ → Async → Type 0 where
  begin : Run a 0 0 a
  received :
      {n m : ℕ} {b : Async} (param : String) → Run a n m b → Run a n m (receive_param param b)
  announced :
      {n m : ℕ} {b : Async} (jack : JackType)
      → Run a n m b
      → Run a (suc n) m (announce_param jack b)
  stepped : {n m : ℕ} {b c : Async} → Run a n m b → thread_step false b ≡ some c → Run a n m c
  awoken :
      {n m : ℕ} {b c : Async}
      → Run a n m b
      → b.place ≡ waiting
      → b.woken ≡ false
      → thread_step true b ≡ some c
      → Run a n (suc m) c

abbrev at_reading : Place → ℕ
at_reading reading = 1
at_reading _ = 0

abbrev at_firing : Place → ℕ
at_firing firing = 1
at_firing _ = 0

abbrev pending : Async → ℕ
pending a = if is_waiting a.place && a.woken then 1 else 0

-- The events fired are the done signals and the one under way; with those to come they are no more than
-- the requests and the returns without a signal.
abbrev pub Accounted : ℕ → Async → Type 0
Accounted n a =
    (length a.fired ≡ length a.done_signals + at_firing a.place)
    × (length a.fired + (at_reading a.place + pending a) ≤ n)

abbrev StepAccounted : ℕ → Option Async → Type 0
StepAccounted n none = Unit {0}
StepAccounted n (some a) = Accounted n a

step-Accounted : (n : ℕ) (a : Async) → Accounted n a → StepAccounted n (thread_step false a)
unfolding thread_step
step-Accounted n a h = ground (arith, h)

wake-Accounted : (n : ℕ) (a : Async) → Accounted n a → StepAccounted (suc n) (thread_step true a)
unfolding thread_step
wake-Accounted n a h = ground (arith, h)

announce-Accounted :
    (n : ℕ) (jack : JackType) (a : Async)
    → Accounted n a
    → Accounted (suc n) (announce_param jack a)
unfolding announce_param
announce-Accounted n jack a h = ground (arith, h)

-- From the start of the thread, however requests and the thread's steps interleave, every event fired is
-- answered by a done signal before the next is fired, and there are never more events, those under
-- way and those to come included, than requests that were announced and returns of the wait without a
-- signal.
pub Run-Accounted : {n m : ℕ} {a : Async} → Run new_async n m a → Accounted (n + m) a
unfolding receive_param
Run-Accounted begin = (refl, omega arith)
Run-Accounted (received param r) = Run-Accounted r
Run-Accounted (announced {n = n} {m = m} {b = b} jack r) =
    let e : suc (n + m) ≡ suc n + m = omega arith in
    subst (λ k. Accounted k (announce_param jack b)) e
      (announce-Accounted (n + m) jack b (Run-Accounted r))
Run-Accounted (stepped {n = n} {m = m} {b = b} r e) =
    subst (StepAccounted (n + m)) e (step-Accounted (n + m) b (Run-Accounted r))
Run-Accounted (awoken {n = n} {m = m} {b = b} {c = c} r w u e) =
    let q : suc (n + m) ≡ n + suc m = omega arith in
    subst (λ k. Accounted k c) q
      (subst (StepAccounted (suc (n + m))) e (wake-Accounted (n + m) b (Run-Accounted r)))
