-- ===== src/ExtJack/Served.antt =====
-- What becomes of one request to the thread of pal-jack-external.c.
use audioreach_pulseaudio_pl.ExtJack.Thread.{
  Async, announce_param, firing, reading, receive_param, state_set_param, thread_step, waiting,
}
use audioreach_pulseaudio_pl.Ports.{JackType}
use audioreach_pulseaudio_pl.Base.{
  Bool, List, Option, String, [], false, none, refl, some, suc, true, zero, ℕ, ◌∷◌, ◌≡◌, ◌⊎◌,
}

-- What comes after a request: other requests, of which the parameters received are listed, and steps of
-- the thread, which are counted.
pub data Later (a : Async) : ℕ → List String → Async → Type 0 where
  at_once : Later a 0 [] a
  later_received :
      {k : ℕ} {ps : List String} {b : Async} (param : String)
      → Later a k ps b
      → Later a k (param ∷ ps) (receive_param param b)
  later_announced :
      {k : ℕ} {ps : List String} {b : Async} (jack : JackType)
      → Later a k ps b
      → Later a k ps (announce_param jack b)
  later_stepped :
      {k : ℕ} {ps : List String} {b c : Async} (spurious : Bool)
      → Later a k ps b
      → thread_step spurious b ≡ some c
      → Later a (suc k) ps c

abbrev pub IsAmong : String → List String → Type 0
IsAmong param [] = ⊥
IsAmong param (q ∷ ps) = (param ≡ q) ⊎ IsAmong param ps

-- An event more than before, with a parameter of the list.
abbrev pub HasFired : List (Option JackType × String) → List String → Async → Type 0
HasFired before ps a =
    (jack : Option JackType) × (param : String) × (a.fired ≡ (jack, param) ∷ before)
    × IsAmong param ps

-- What the thread makes of a request, by the number of its steps.
abbrev pub IsServed : List (Option JackType × String) → List String → ℕ → Async → Type 0
IsServed before ps zero a = (b : Async) × (thread_step false a ≡ some b)
IsServed before ps (suc zero) a = (b : Async) × (thread_step false a ≡ some b)
IsServed before ps (suc (suc zero)) a = HasFired before ps a
IsServed before ps (suc (suc (suc k))) a = Unit {0}

abbrev Serving : List (Option JackType × String) → List String → ℕ → Async → Type 0
Serving before ps zero a =
    (a.place ≡ waiting)
    × (a.woken ≡ true)
    × (a.thread_state ≡ state_set_param)
    × (a.fired ≡ before)
    × IsAmong a.param ps
Serving before ps (suc zero) a = (a.place ≡ reading) × (a.fired ≡ before) × IsAmong a.param ps
Serving before ps (suc (suc zero)) a = HasFired before ps a
Serving before ps (suc (suc (suc k))) a = Unit {0}

abbrev StepServing : List (Option JackType × String) → List String → ℕ → Option Async → Type 0
StepServing before ps k none = Unit {0}
StepServing before ps k (some a) = Serving before ps k a

-- The parameters that came, the latest first; the request's own is the last.
abbrev pub came : String → List String → List String
came param [] = param ∷ []
came param (q ∷ ps) = q ∷ came param ps

-- A request that comes while the thread is in the hook of the one before is lost, if no signal follows
-- and the wait does not return without one: its signal wakes nobody, the thread goes on to wait and
-- takes no step from there, and its parameter was not fired.
pub request_lost :
    (param : String) (jack : JackType) (a : Async)
    → a.place ≡ firing
    → let b = announce_param jack (receive_param param a) in
      (c : Async) × (thread_step false b ≡ some c)
      × (thread_step false c ≡ none)
      × (c.fired ≡ a.fired)
      × (c.param ≡ param)
unfolding receive_param announce_param thread_step
request_lost param jack a e =
    let c : Async = record a {
      param = param;
      external_jdata = some jack;
      thread_state = state_set_param;
      place = waiting;
      woken = false;
      done_signals = some jack ∷ a.done_signals;
    } in
    (c, simp e refl, refl, refl, refl)
