-- ===== src/Hfp.antt =====
-- modules/pa-pal-plugins/module-pal-card/src/hfp.c: the hands-free call over Bluetooth SCO, as two
-- loopback streams, receive and transmit.
--
-- A function that updates `*btsco` returns the new record and the longer history beside its return
-- code. `pa_hashmap_first` of the loopbacks' port maps gives an optional port, which the record of a
-- loopback holds. Logging is left out.
pub mod Streams
pub mod Lifetime
pub mod Sequences
pub mod Leak
mod Tests
use audioreach_pulseaudio_pl.Loopback.{
  Btsco, LoopbackConfig, PortConfig, default_sample_rate, e_failure, rx_attributes, rx_in_device,
  rx_out_device, tx_attributes, tx_devices,
}
use audioreach_pulseaudio_pl.Volume.{
  Floats, einval, enomem, set_device_connection_state, set_volume,
}
use audioreach_pulseaudio_pl.Pal.{
  ChInfo, Handle, History, Pal, PalDevice, PalFormats, ScoParam, StreamAttributes, bt_sco,
  bt_sco_wb, call, set_btsco, stream_close, stream_open, stream_start, stream_stop,
}
use audioreach_pulseaudio_pl.Base.{
  Bool, List, Option, [], failed, false, if◌then◌else◌, none, pos, some, true, ℕ, ℤ, ◌==◌, ◌∷◌,
}

unfoldable pub set_btsco_params : Pal → Btsco → ScoParam → Bool → History → ℤ × History
set_btsco_params p b bt_sco is_sco_on t = call p (set_btsco bt_sco is_sco_on false) t
set_btsco_params p b bt_sco_wb is_sco_on t =
    call p (set_btsco bt_sco_wb is_sco_on (b.sample_rate == default_sample_rate)) t

-- What `calloc` and the assignments give; `volume` is DEFAULT_VOLUME.
abbrev pub new_btsco : ℕ → ℕ → Btsco
new_btsco volume rate = record {
  is_running = false;
  rx_mute = false;
  tx_mute = false;
  rx_volume = volume;
  tx_volume = volume;
  sample_rate = rate;
  rx_stream_handle = none;
  tx_stream_handle = none;
}

-- The calls of `init_btsco`, in order, up to the first that fails.
unfoldable pub announce : Pal → Btsco → PortConfig → PortConfig → History → Bool × History
unfolding set_btsco_params
announce p b port_in port_out t =
    let (r1, t1) = set_device_connection_state p port_in.device true t in
    let (r2, t2) = set_device_connection_state p port_out.device true t1 in
    let (r3, t3) = set_btsco_params p b bt_sco true t2 in
    let (r4, t4) = set_btsco_params p b bt_sco_wb true t3 in
    if failed r1
    then (false, t1)
    else if failed r2
    then (false, t2)
    else if failed r3
    then (false, t3)
    else if failed r4
    then (false, t4)
    else (true, t4)

-- `init_btsco`, with the input port of the receive loopback and the output port of the transmit
-- loopback. `out` is what `*btsco` holds before. The result also gives the input port, whose rate
-- is overwritten.
unfoldable pub init_btsco :
    Pal
    → ℕ
    → Option Btsco
    → Option PortConfig
    → Option PortConfig
    → History
    → ℤ × Option Btsco × Option PortConfig × History
unfolding announce
init_btsco p volume out (some port_in) (some port_out) t =
    let b = new_btsco volume port_out.rate in
    let port_in' = record port_in { rate = port_out.rate } in
    let (done, t') = announce p b port_in' port_out t in
    if p.allocates t
    then (if done then (pos 0, some b, some port_in', t') else (e_failure, none, some port_in', t'))
    else (enomem, out, some port_in, t)
init_btsco p volume out none port_out t = (e_failure, out, none, t)
init_btsco p volume out (some port_in) none t = (e_failure, out, some port_in, t)

-- Opening and starting the receive stream.
unfoldable pub start_rx :
    Pal → StreamAttributes → List PalDevice → Btsco → History → ℤ × Btsco × History
start_rx p attributes devices b t =
    let h = p.handle t in
    let (r1, t1) = call p (stream_open attributes devices) t in
    let (r2, t2) = call p (stream_start (some h)) t1 in
    let (r3, t3) = call p (stream_close (some h)) t2 in
    if failed r1
    then (r1, record b { rx_stream_handle = none }, t1)
    else if failed r2
    then (r2, record b { rx_stream_handle = none }, t3)
    else (r2, record b { rx_stream_handle = some h }, t2)

-- Opening and starting the transmit stream; a failure gives up the receive stream too.
unfoldable pub start_tx :
    Pal → StreamAttributes → List PalDevice → Btsco → History → ℤ × Btsco × History
start_tx p attributes devices b t =
    let h = p.handle t in
    let rx = b.rx_stream_handle in
    let (r1, t1) = call p (stream_open attributes devices) t in
    let undo_open = stream_close rx ∷ stream_stop rx ∷ t1 in
    let (r2, t2) = call p (stream_start (some h)) t1 in
    let undo_start = stream_close rx ∷ stream_stop rx ∷ stream_close (some h) ∷ t2 in
    if failed r1
    then (r1, record b { tx_stream_handle = none; rx_stream_handle = none }, undo_open)
    else if failed r2
    then (r2, record b { tx_stream_handle = none; rx_stream_handle = none }, undo_start)
    else (r2, record b { tx_stream_handle = some h; is_running = true }, t2)

-- The wideband parameter is set again only where the rate differs.
unfoldable pub sync_rate : Pal → Btsco → PortConfig → History → ℤ × History
sync_rate p b rx_in t =
    if b.sample_rate == rx_in.rate then (pos 0, t) else set_btsco_params p b bt_sco_wb true t

-- The two volumes, set once both streams run; their return codes are not read.
unfoldable pub set_volumes : Pal → Floats → Btsco → PortConfig → PortConfig → History → History
set_volumes p f b rx_in tx_out t =
    let t1 = (set_volume p f b.rx_stream_handle rx_in.default_map.channels b.rx_volume t).1 in
    (set_volume p f b.tx_stream_handle tx_out.default_map.channels b.tx_volume t1).1

unfoldable pub start_with :
    Pal
    → Floats
    → PalFormats
    → ChInfo
    → Btsco
    → PortConfig
    → PortConfig
    → PortConfig
    → PortConfig
    → History
    → ℤ × Btsco × History
start_with p f formats junk b rx_in rx_out tx_in tx_out t =
    let (r0, t0) = sync_rate p b rx_in t in
    let (r1, b1, t1) =
      start_rx p (rx_attributes formats junk b rx_in rx_out)
        (rx_in_device formats junk b rx_in ∷ rx_out_device rx_out ∷ []) b t0 in
    let (r2, b2, t2) =
      start_tx p (tx_attributes formats junk b rx_in tx_in tx_out)
        (tx_devices formats junk b rx_in tx_in tx_out) b1 t1 in
    if failed r0
    then (r0, b, t0)
    else if failed r1
    then (r1, b1, t1)
    else if failed r2
    then (r2, b2, t2)
    else (r2, b2, set_volumes p f b2 rx_in tx_out t2)

-- The test for the four ports.
unfoldable pub start_ports :
    Pal
    → Floats
    → PalFormats
    → ChInfo
    → Btsco
    → Option PortConfig
    → Option PortConfig
    → Option PortConfig
    → Option PortConfig
    → History
    → ℤ × Btsco × History
start_ports p f formats junk b (some rx_in) (some rx_out) (some tx_in) (some tx_out) t =
    start_with p f formats junk b rx_in rx_out tx_in tx_out t
start_ports p f formats junk b _ _ _ _ t = (einval, b, t)

unfoldable pub start_hfp :
    Pal
    → Floats
    → PalFormats
    → ChInfo
    → Btsco
    → LoopbackConfig
    → LoopbackConfig
    → History
    → ℤ × Btsco × History
start_hfp p f formats junk b rx tx t =
    start_ports p f formats junk b rx.in_port rx.out_port tx.in_port tx.out_port t

-- Stopping and closing one stream, if there is one: the code that `stop_hfp` has for each of the
-- two. The result says how it ended and whether the handle is cleared.
abbrev pub stop_stream : Pal → Handle → History → ℤ × Handle × History
stop_stream p none t = (pos 0, none, t)
stop_stream p (some h) t =
    let (r1, t1) = call p (stream_stop (some h)) t in
    let (r2, t2) = call p (stream_close (some h)) t1 in
    if failed r1 then (r1, some h, t1) else if failed r2 then (r2, some h, t2) else (r2, none, t2)

unfoldable pub stop_hfp : Pal → Btsco → History → ℤ × Btsco × History
stop_hfp p b t =
    let (r1, rx, t1) = stop_stream p b.rx_stream_handle t in
    let (r2, tx, t2) = stop_stream p b.tx_stream_handle t1 in
    let b1 = record b { is_running = false; rx_stream_handle = rx } in
    if b.is_running
    then (if failed r1 then (r1, b1, t1) else (r2, record b1 { tx_stream_handle = tx }, t2))
    else (e_failure, b, t)

-- Telling PAL that a port's device is gone, if there is a port.
abbrev pub disconnect : Pal → Option PortConfig → History → History
disconnect p none t = t
disconnect p (some port) t = (set_device_connection_state p port.device false t).1

-- `deinit_btsco`, which frees the record: only the history is left.
unfoldable pub deinit_btsco :
    Pal → Option Btsco → Option PortConfig → Option PortConfig → History → History
unfolding stop_hfp set_btsco_params
deinit_btsco p none port_in port_out t = t
deinit_btsco p (some b) port_in port_out t =
    let t1 = if b.is_running then (stop_hfp p b t).2 else t in
    let b1 = if b.is_running then (stop_hfp p b t).1 else b in
    disconnect p port_out (disconnect p port_in (set_btsco_params p b1 bt_sco false t1).1)
