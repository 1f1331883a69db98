-- ===== src/ExtJack/Thread.antt =====
-- The thread of pal-jack-external.c that hands a parameter on (`jack_ext_async_thread_func`), the
-- handler that gives it one (`pal_jack_external_set_param`), and the thread's count of jacks.
--
-- A step is what happens between two waits: the thread holds the mutex but while it waits and while it
-- reads the parameter and fires the event. A signal of the condition wakes the thread if it waits, and is
-- lost if it does not; `pa_cond_wait` may also return without a signal.
use audioreach_pulseaudio_pl.Ports.{JackType, get_port_name_from_jack_type}
use audioreach_pulseaudio_pl.Base.{
  Bool, List, Option, String, [], false, if◌then◌else◌, none, some, true, ℕ, ◌+◌, ◌-◌, ◌==◌, ◌∷◌,
  ◌||◌,
}

-- `jack_ext_async_thread_state_t`
pub data AsyncState : Type 0 where
  state_idle state_set_param state_exit : AsyncState

-- Where the thread is: before its loop, in `pa_cond_wait`, after the unlock, in the hook, or at its end.
pub data Place : Type 0 where
  starting waiting reading firing ended : Place

-- `pa_pal_async_thread_data`, where `external_jdata` is known by the jack that it is of, and what the thread
-- has done: the events fired, each with the jack whose hook fired and the parameter, and the done
-- signals, each with the jack that it is of, the latest first.
pub record Async : Type 0 where
  pub param : String
  pub external_jdata : Option JackType
  pub jack_ref_count : ℕ
  pub thread_state : AsyncState
  pub place : Place
  pub woken : Bool
  pub fired : List (Option JackType × String)
  pub done_signals : List (Option JackType)

abbrev pub is_exit : AsyncState → Bool
is_exit state_exit = true
is_exit _ = false

abbrev pub is_set_param : AsyncState → Bool
is_set_param state_set_param = true
is_set_param _ = false

abbrev pub is_waiting : Place → Bool
is_waiting waiting = true
is_waiting _ = false

-- The handler's first write, which holds no mutex.
unfoldable pub receive_param : String → Async → Async
receive_param param a = record a { param = param }

-- The rest of the handler of a jack, under the mutex, with its signal.
unfoldable pub announce_param : JackType → Async → Async
announce_param jack a = record a {
  thread_state = state_set_param;
  external_jdata = some jack;
  woken = if is_waiting a.place then true else a.woken;
}

-- The head of the loop: the test, and the wait.
abbrev pub loop_head : Async → Async
loop_head a =
    if is_exit a.thread_state
    then record a { place = ended }
    else record a { place = waiting; woken = false }

-- The next step of the thread from each place; none while it waits, and at its end. `spurious` is
-- whether the wait returns without a signal.
abbrev step_from : Place → Bool → Async → Option Async
step_from starting spurious a = some (loop_head a)
step_from waiting spurious a =
    if a.woken || spurious
    then (if is_set_param a.thread_state
        then some (record a { place = reading; woken = false })
        else some (loop_head a))
    else none
step_from reading spurious a =
    some (record a { place = firing; fired = (a.external_jdata, a.param) ∷ a.fired })
step_from firing spurious a =
    some (loop_head (record a { done_signals = a.external_jdata ∷ a.done_signals }))
step_from ended spurious a = none

unfoldable pub thread_step : Bool → Async → Option Async
thread_step spurious a = step_from a.place spurious a

-- The data of a new thread.
abbrev pub new_async : Async
new_async = record {
  param = "";
  external_jdata = none;
  jack_ref_count = 0;
  thread_state = state_idle;
  place = starting;
  woken = false;
  fired = [];
  done_signals = [];
}

-- `pa_pal_external_jack_detection_enable`: a jack without a port name gets nothing; the first one
-- makes the thread.
abbrev enable_named : Option String → Option Async → Bool × Option Async
enable_named none shared = (false, shared)
enable_named (some name) none = (true, some (record new_async { jack_ref_count = 1 }))
enable_named (some name) (some a) =
    (true, some (record a { jack_ref_count = a.jack_ref_count + 1 }))

unfoldable pub external_enable : JackType → Option Async → Bool × Option Async
external_enable jack_type shared = enable_named (get_port_name_from_jack_type jack_type) shared

-- `pa_pal_external_jack_detection_disable`: the last jack ends the thread, waits for its end and frees
-- the data. Without the data the code reads through NULL.
unfoldable pub external_disable : Option Async → Option (Option Async)
external_disable none = none
external_disable (some a) =
    if a.jack_ref_count == 1
    then some none
    else some (some (record a { jack_ref_count = a.jack_ref_count - 1 }))
