-- ===== src/Source.antt =====
-- modules/pa-pal-plugins/module-pal-card/src/pal-source.c: the recording source between PulseAudio
-- and one PAL stream: opening, starting, standby, closing, the changes of state and of port.
--
-- `Source` is what the functions share of `pa_pal_source_data` and `pal_source_data`. A start whose
-- open fails frees `pal_source_data` and stores NULL for it: `SourceData.freed`, which keeps the flag
-- `pal_source_opened` of the outer structure. An operation that would then read through NULL, or
-- fails an assertion (`pa_assert`), has no result: `none`.
pub mod Rates
pub mod Ports
pub mod Reconfigure
pub mod Fill
pub mod Lifecycle
pub mod Announce
pub mod Reconfigured
pub mod Requests
pub mod Steps
pub mod Leak
pub mod Tests
use audioreach_pulseaudio_pl.Sink.{CtrlEvent, SinkStates}
use audioreach_pulseaudio_pl.Pal.{
  Handle, History, Pal, PalDevice, StreamAttributes, call, stream_close, stream_open,
  stream_set_buffer_size, stream_start, stream_stop,
}
use audioreach_pulseaudio_pl.Base.{
  Bool, Option, [], failed, false, if◌then◌else◌, negsuc, none, not, pos, some, true, ℕ, ℤ, ◌&&◌,
  ◌==◌, ◌||◌, ◌∷◌,
}

pub record Source : Type 0 where
  pub stream_handle : Handle
  pub stream_attributes : StreamAttributes
  pub pal_device : PalDevice
  pub buffer_size : ℕ
  pub buffer_count : ℕ
  pub standby : Bool
  pub dynamic_usecase : Bool
  pub source_event_id : CtrlEvent
  pub pal_source_opened : Bool

pub data SourceData : Type 0 where
  present : Source → SourceData
  freed : Bool → SourceData

-- A refused buffer size is returned as the code, with the source opened.
unfoldable pub open_pal_source : Pal → Source → History → ℤ × Source × History
open_pal_source p s t =
    let h = p.handle t in
    let (r1, t1) = call p (stream_open s.stream_attributes (s.pal_device ∷ [])) t in
    let (r2, t2) = call p (stream_set_buffer_size (some h) s.buffer_size s.buffer_count) t1 in
    if failed r1
    then (r1, record s { stream_handle = none }, t1)
    else (r2, record s { stream_handle = some h; pal_source_opened = true }, t2)

-- The code of `pal_stream_stop` is only logged. A missing handle fails the assertion.
abbrev close_source_handle : Pal → Source → Handle → History → Option (ℤ × Source × History)
close_source_handle p s none t = none
close_source_handle p s (some h) t =
    let (r1, t1) = call p (stream_stop (some h)) t in
    let (r2, t2) = call p (stream_close (some h)) t1 in
    some (r2, record s { stream_handle = none; standby = true; pal_source_opened = false }, t2)

unfoldable pub close_pal_source : Pal → Source → History → Option (ℤ × Source × History)
close_pal_source p s t = close_source_handle p s s.stream_handle t

-- `pal_stream_start` and what follows it: standby ends whatever the code.
unfoldable pub start_opened : Pal → Source → History → ℤ × SourceData × History
start_opened p s t =
    let (r, t') = call p (stream_start s.stream_handle) t in
    (r, present (record s { standby = false }), t')

unfoldable pub source_start : Pal → Source → History → ℤ × SourceData × History
source_start p s t =
    let (r1, s1, t1) = open_pal_source p s t in
    if s.standby
    then (if s.pal_source_opened
        then start_opened p s t
        else if failed r1
        then (r1, freed s1.pal_source_opened, t1)
        else start_opened p s1 t1)
    else (pos 0, present s, t)

-- What a caller that drops the code of a close goes on with.
abbrev pub closed_source : Option (ℤ × Source × History) → Option (ℤ × SourceData × History)
closed_source none = none
closed_source (some (r, s, t)) = some (pos 0, present s, t)

unfoldable pub source_standby : Pal → Source → History → Option (ℤ × SourceData × History)
source_standby p s t =
    if s.pal_source_opened
    then closed_source (close_pal_source p s t)
    else some (pos 0, present s, t)

-- `pa_pal_source_set_state_in_io_thread_cb`: the state of the source's thread, and the new state.
-- PulseAudio's sources and sinks have the same states, and the code names PA_SINK_UNLINKED.
unfoldable pub set_source_state :
    Pal → SinkStates → ℕ → ℕ → SourceData → History → Option (ℤ × SourceData × History)
set_source_state p st thread_state new_state (present s) t =
    if (thread_state == st.init && st.is_opened new_state) && s.dynamic_usecase
    then some (pos 0, present s, t)
    else if st.is_opened new_state && not (st.is_opened thread_state)
    then some (source_start p s t)
    else if new_state == st.suspended || (new_state == st.unlinked && s.pal_source_opened)
    then source_standby p s t
    else some (pos 0, present s, t)
set_source_state p st thread_state new_state (freed opened) t =
    if thread_state == st.init && st.is_opened new_state
    then none
    else if st.is_opened new_state && not (st.is_opened thread_state)
    then none
    else if new_state == st.suspended || (new_state == st.unlinked && opened)
    then none
    else some (pos 0, freed opened, t)
