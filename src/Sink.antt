-- ===== src/Sink.antt =====
-- modules/pa-pal-plugins/module-pal-card/src/pal-sink.c: the playback sink between PulseAudio and
-- one PAL stream: opening, starting, standby, closing, the change of state and of port.
--
-- The record is what the functions share of `pa_pal_sink_data`, `pal_sink_data` and `pa_sink`. An
-- operation returns its code, the new record and the longer history. An assertion
-- (`pa_assert`) on the handle that fails is the entry `assertion_failed` of the history, which `safe`
-- does not admit, and ends the function; the assertions on the userdata are not steps of the model.
-- A mutex that is locked and unlocked within one function is no step either, but see Sink/Write.
pub mod Lifecycle
pub mod Volume
pub mod Reach
pub mod Leak
pub mod Rates
pub mod Restart
pub mod Reconfigure
pub mod Reconfigured
pub mod Write
pub mod Latency
mod Tests
use audioreach_pulseaudio_pl.Volume.{set_device_connection_state}
use audioreach_pulseaudio_pl.Pal.{
  Device, Handle, History, Pal, PalDevice, StreamAttributes, call, out_aux_digital, stream_close,
  stream_drain, stream_flush, stream_open, stream_pause, stream_set_buffer_size,
  stream_set_codec_param, stream_set_device, stream_start, stream_stop, assertion_failed,
}
use audioreach_pulseaudio_pl.Base.{
  Bool, Option, String, [], failed, false, if◌then◌else◌, negsuc, none, not, pos, some, true, ℕ, ℤ,
  ◌&&◌, ◌==◌, ◌||◌, ◌∷◌, is_some,
}

-- The values of `pa_sink_state_t` that the code names, and PulseAudio's tests on them.
pub record SinkStates : Type 0 where
  pub init : ℕ
  pub suspended : ℕ
  pub unlinked : ℕ
  pub is_opened : ℕ → Bool
  pub is_running : ℕ → Bool

pub data CtrlEvent : Type 0 where
  no_event volume_apply device_switch : CtrlEvent

pub record Sink : Type 0 where
  pub stream_handle : Handle
  pub stream_attributes : StreamAttributes
  pub pal_device : PalDevice
  pub buffer_size : ℕ
  pub buffer_count : ℕ
  pub bytes_written : ℕ
  pub sess_time : ℕ
  pub standby : Bool
  pub compressed : Bool
  pub dynamic_usecase : Bool
  pub restart_in_progress : Bool
  pub close_output : Bool
  pub sink_event_id : CtrlEvent
  pub pal_sink_opened : Bool

unfoldable pub open_pal_sink : Pal → Sink → History → ℤ × Sink × History
open_pal_sink p s t =
    let h = p.handle t in
    let (r1, t1) = call p (stream_open s.stream_attributes (s.pal_device ∷ [])) t in
    let (r2, t2) = call p (stream_set_buffer_size (some h) s.buffer_size s.buffer_count) t1 in
    if failed r1
    then (r1, record s { stream_handle = none }, t1)
    else if failed r2
    then (r2, record s { stream_handle = some h }, t2)
    else (r2, record s { stream_handle = some h; pal_sink_opened = true; close_output = false }, t2)

-- The code of `pal_stream_stop` is only logged. A missing handle fails the assertion.
abbrev close_handle : Pal → Sink → Handle → History → ℤ × Sink × History
close_handle p s none t = (negsuc 0, s, assertion_failed ∷ t)
close_handle p s (some h) t =
    let (r1, t1) = call p (stream_stop (some h)) t in
    let (r2, t2) = call p (stream_close (some h)) t1 in
    (
      r2,
      record s {
        close_output = true;
        stream_handle = none;
        bytes_written = 0;
        standby = true;
        sess_time = 0;
        pal_sink_opened = false;
      },
      t2,
    )

unfoldable pub close_pal_sink : Pal → Sink → History → ℤ × Sink × History
close_pal_sink p s t = close_handle p s s.stream_handle t

-- `pa_pal_set_param` with PAL_PARAM_ID_CODEC_CONFIGURATION, the one use of it.
unfoldable pub set_codec_param : Pal → Sink → History → ℤ × History
set_codec_param p s t =
    if p.allocates t then call p (stream_set_codec_param s.stream_handle) t else (negsuc 0, t)

-- The label `cleanup` of `pa_pal_sink_start`.
unfoldable pub cleanup : Pal → ℤ → Sink → History → ℤ × Sink × History
cleanup p rc s t =
    if s.pal_sink_opened
    then (let (r, s', t') = close_pal_sink p s t in (rc, s', t'))
    else (rc, s, t)

-- The first step of a start, the second for a compressed stream, and the third.
unfoldable pub start_open : Pal → Sink → History → ℤ × Sink × History
start_open p s t = if s.pal_sink_opened then (pos 0, s, t) else open_pal_sink p s t

unfoldable pub start_codec : Pal → Sink → History → ℤ × History
start_codec p s t = if s.compressed then set_codec_param p s t else (pos 0, t)

unfoldable pub sink_start : Pal → Sink → History → ℤ × Sink × History
sink_start p s t =
    let (r1, s1, t1) = start_open p s t in
    let (r2, t2) = start_codec p s1 t1 in
    let (r3, t3) = call p (stream_start s1.stream_handle) t2 in
    if s.standby
    then (if failed r1
        then cleanup p r1 s1 t1
        else if failed r2
        then cleanup p r2 s1 t2
        else if failed r3
        then cleanup p r3 s1 t3
        else (pos 0, record s1 { restart_in_progress = false; standby = false }, t3))
    else (pos 0, record s { standby = false }, t)

-- The code of the close is only logged.
unfoldable pub sink_standby : Pal → Sink → History → ℤ × Sink × History
sink_standby p s t =
    if s.pal_sink_opened
    then (let (r, s', t') = close_pal_sink p s t in (pos 0, s', t'))
    else (pos 0, s, t)

-- `pa_pal_sink_set_state_in_io_thread_cb`: the state of the sink's thread, and the new state.
unfoldable pub set_state : Pal → SinkStates → ℕ → ℕ → Sink → History → ℤ × Sink × History
set_state p st thread_state new_state s t =
    if (thread_state == st.init && st.is_opened new_state) && s.dynamic_usecase
    then (pos 0, s, t)
    else if st.is_opened new_state
    then sink_start p s t
    else if new_state == st.suspended || (new_state == st.unlinked && s.pal_sink_opened)
    then sink_standby p s t
    else (pos 0, s, t)

-- The fields of `pa_pal_card_port_device_data` that the change of port uses.
pub record PortDeviceData : Type 0 where
  pub device : Device
  pub is_connected : Bool
  pub pal_devicepp_config : Option String

abbrev pub is_aux_digital : Device → Bool
is_aux_digital out_aux_digital = true
is_aux_digital _ = false

abbrev pub custom_key_of : Pal → Option String → String
custom_key_of p none = ""
custom_key_of p (some key) = p.key_in_array key

-- Telling PAL that the digital output was plugged in or pulled out: only where the port's data did
-- not say so already.
abbrev pub connect : Pal → PortDeviceData → Bool → History → ℤ × PortDeviceData × History
connect p port state t =
    let (r, t') = set_device_connection_state p out_aux_digital state t in
    let changed = if port.is_connected then not state else state in
    if changed
    then (r, record port { is_connected = state }, t')
    else (pos 0, record port { is_connected = state }, t)

-- The first half of `pa_pal_sink_set_port_cb`, up to the device's data. The result holds the data of
-- the new port and of the active one; where these are one port, the first is it.
unfoldable pub connect_ports :
    Pal → PortDeviceData → PortDeviceData → History → ℤ × PortDeviceData × PortDeviceData × History
connect_ports p port active t =
    let (r1, port', t1) = connect p port true t in
    let (r2, active', t2) = connect p active false t in
    if is_aux_digital port.device
    then (r1, port', active, t1)
    else if is_aux_digital active.device
    then (r2, port, active', t2)
    else (pos 0, port, active, t)

unfoldable pub set_port :
    Pal
    → SinkStates
    → ℕ
    → PortDeviceData
    → PortDeviceData
    → Sink
    → History
    → ℤ × Sink × PortDeviceData × PortDeviceData × History
unfolding connect_ports
set_port p st state port active s t =
    let (r1, port', active', t1) = connect_ports p port active t in
    let s1 = record s {
      pal_device = record (s.pal_device) {
        id = port.device;
        custom_key = custom_key_of p port.pal_devicepp_config;
      };
    } in
    let (r2, t2) = call p (stream_set_device s.stream_handle port.device) t1 in
    if st.is_opened state && not (is_some s.stream_handle)
    then (negsuc 0, s, port, active, assertion_failed ∷ t)
    else if st.is_opened state
    then (r2, record s1 { sink_event_id = no_event }, port', active', t2)
    else (r1, s1, port', active', t1)

-- `pa_pal_sink_drain_cb` and `pa_pal_sink_flush_cb`, which assert the handle whatever the state.
unfoldable pub drain : Pal → SinkStates → ℕ → Sink → History → ℤ × History
drain p st state s t =
    if not (is_some s.stream_handle)
    then (negsuc 0, assertion_failed ∷ t)
    else if st.is_opened state
    then call p (stream_drain s.stream_handle) t
    else (pos 0, t)

unfoldable pub flush : Pal → SinkStates → ℕ → Sink → History → ℤ × History
flush p st state s t =
    let (r1, t1) = call p (stream_pause s.stream_handle) t in
    let (r2, t2) = call p (stream_flush s.stream_handle) t1 in
    if not (is_some s.stream_handle)
    then (negsuc 0, assertion_failed ∷ t)
    else if st.is_opened state
    then (r2, t2)
    else (pos 0, t)
