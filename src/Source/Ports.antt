-- ===== src/Source/Ports.antt =====
-- The change of port of pal-source.c (`pa_pal_source_set_port_cb`), which tells PAL that a plugged
-- input was connected or disconnected.
use audioreach_pulseaudio_pl.Source.{Source}
use audioreach_pulseaudio_pl.Volume.{set_device_connection_state}
use audioreach_pulseaudio_pl.Sink.{PortDeviceData, SinkStates, no_event, custom_key_of}
use audioreach_pulseaudio_pl.Pal.{
  Device, History, Pal, call, in_aux_digital, in_hdmi, in_wired_headset, stream_set_device,
}
use audioreach_pulseaudio_pl.Base.{
  Bool, Option, false, if◌then◌else◌, none, not, pos, some, true, ℕ, ℤ, is_some, ◌&&◌,
}

-- The inputs that are plugged in and out, each with its block of the function.
pub data Plug : Type 0 where
  plug_headset plug_aux_digital plug_hdmi : Plug

abbrev pub plug_device : Plug → Device
plug_device plug_headset = in_wired_headset
plug_device plug_aux_digital = in_aux_digital
plug_device plug_hdmi = in_hdmi

abbrev pub is_plug : Plug → Device → Bool
is_plug plug_headset in_wired_headset = true
is_plug plug_headset _ = false
is_plug plug_aux_digital in_aux_digital = true
is_plug plug_aux_digital _ = false
is_plug plug_hdmi in_hdmi = true
is_plug plug_hdmi _ = false

-- PAL is told only where the port's data did not say so already; else the code stays.
abbrev pub tell : Pal → Plug → PortDeviceData → Bool → ℤ → History → ℤ × PortDeviceData × History
tell p plug port state ret t =
    let (r, t') = set_device_connection_state p (plug_device plug) state t in
    let changed = if port.is_connected then not state else state in
    if changed
    then (r, record port { is_connected = state }, t')
    else (ret, record port { is_connected = state }, t)

-- One of the three blocks: the new port, else the active one, and neither where no port is the input.
-- Where these are one port, the first of the results is it.
unfoldable pub connect_plug :
    Pal
    → Plug
    → PortDeviceData
    → PortDeviceData
    → ℤ
    → History
    → ℤ × PortDeviceData × PortDeviceData × History
connect_plug p plug port active ret t =
    let (r1, port', t1) = tell p plug port true ret t in
    let (r2, active', t2) = tell p plug active false ret t in
    if is_plug plug port.device
    then (r1, port', active, t1)
    else if is_plug plug active.device
    then (r2, port, active', t2)
    else (ret, port, active, t)

unfoldable pub connect_inputs :
    Pal → PortDeviceData → PortDeviceData → History → ℤ × PortDeviceData × PortDeviceData × History
connect_inputs p port active t =
    let (r1, port1, active1, t1) = connect_plug p plug_headset port active (pos 0) t in
    let (r2, port2, active2, t2) = connect_plug p plug_aux_digital port1 active1 r1 t1 in
    connect_plug p plug_hdmi port2 active2 r2 t2

-- The whole function. `state` is the source's; an opened source without a handle fails the
-- assertion, after PAL has been told.
unfoldable pub set_source_port :
    Pal
    → SinkStates
    → ℕ
    → PortDeviceData
    → PortDeviceData
    → Source
    → History
    → Option (ℤ × Source × PortDeviceData × PortDeviceData × History)
set_source_port p st state port active s t =
    let (r1, port', active', t1) = connect_inputs p port active t in
    let s1 = record s {
      pal_device = record (s.pal_device) {
        id = port.device;
        custom_key = custom_key_of p port.pal_devicepp_config;
      };
    } in
    let (r2, t2) = call p (stream_set_device s.stream_handle port.device) t1 in
    if st.is_opened state && not (is_some s.stream_handle)
    then none
    else if st.is_opened state
    then some (r2, record s1 { source_event_id = no_event }, port', active', t2)
    else some (r1, s1, port', active', t1)
