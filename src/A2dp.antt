-- ===== src/A2dp.antt =====
-- modules/pa-pal-plugins/module-pal-card/src/bt-a2dp-split.c, the Bluetooth A2DP sink as one
-- loopback stream, and its branches of the session methods of pal-loopback.c, which call it.
--
-- A function that updates `*btsink` returns the new record and the longer history beside its return
-- code.
pub mod Lifetime
pub mod Sessions
pub mod Dangling
mod Tests
use audioreach_pulseaudio_pl.Loopback.{LoopbackConfig, PortConfig, e_failure}
use audioreach_pulseaudio_pl.Channel.{channel_map_to_pal}
use audioreach_pulseaudio_pl.Volume.{
  Floats, einval, enomem, set_device_connection_state, set_volume,
}
use audioreach_pulseaudio_pl.Pal.{
  ChInfo, Handle, History, MediaConfig, Pal, PalDevice, PalFormats, StreamAttributes,
  audio_input_output, call, loopback, loopback_pcm, stream_close, stream_open, stream_start,
  stream_stop,
}
use audioreach_pulseaudio_pl.Base.{
  Bool, List, Option, String, [], failed, false, if◌then◌else◌, none, pos, some, true, ℕ, ℤ, ◌∷◌,
}

-- `btsink_t` of inc/bt-a2dp-split.h
pub record Btsink : Type 0 where
  pub is_running : Bool
  pub is_mute : Bool
  pub volume : ℕ
  pub stream_handle : Handle

abbrev pub new_btsink : ℕ → Btsink
new_btsink volume = record {
  is_running = false;
  is_mute = false;
  volume = volume;
  stream_handle = none;
}

-- `out` is what `*btsink` holds before; `volume` is 10.0.
unfoldable pub init_btsink :
    Pal → ℕ → Option Btsink → LoopbackConfig → History → ℤ × Option Btsink × History
init_btsink p volume out conf t = elim conf.in_port [
  | none ↦ (e_failure, out, t)
  | some port_in ↦
      if p.allocates t
      then (let (r, t') = set_device_connection_state p port_in.device true t in
          if failed r then (e_failure, none, t') else (pos 0, some (new_btsink volume), t'))
      else (enomem, out, t)
]

-- What the function leaves uninitialised: the channel information, and the custom key of the input
-- device.
pub record Junk : Type 0 where
  pub info : ChInfo
  pub key : String

abbrev pub in_info : Junk → PortConfig → ChInfo
in_info junk port_in = (channel_map_to_pal port_in.default_map junk.info).1

abbrev pub out_info : Junk → PortConfig → PortConfig → ChInfo
out_info junk port_in port_out = (channel_map_to_pal port_out.default_map (in_info junk port_in)).1

abbrev pub pcm_media : PalFormats → ℕ → ChInfo → MediaConfig
pcm_media formats rate info = record {
  sample_rate = rate;
  bit_width = 16;
  aud_fmt_id = formats.pcm_s16_le;
  ch_info = info;
}

abbrev pub attributes : PalFormats → Junk → PortConfig → PortConfig → StreamAttributes
attributes formats junk port_in port_out = record {
  stream_type = loopback;
  loopback_type = loopback_pcm;
  direction = audio_input_output;
  in_media_config = pcm_media formats port_in.rate (in_info junk port_in);
  out_media_config = pcm_media formats port_out.rate (out_info junk port_in port_out);
}

abbrev pub devices : PalFormats → Junk → PortConfig → PortConfig → List PalDevice
devices formats junk port_in port_out =
    record {
      id = port_in.device;
      config = pcm_media formats port_in.rate (in_info junk port_in);
      custom_key = junk.key;
    }
    ∷ record {
      id = port_out.device;
      config = pcm_media formats port_out.rate (out_info junk port_in port_out);
      custom_key = "btsink-usecase";
    }
    ∷ []

-- An open that fails leaves in the record whatever PAL left in the handle variable; a start that
-- fails closes the stream and leaves its handle in the record.
unfoldable pub start_stream :
    Pal → Floats → StreamAttributes → List PalDevice → ℕ → Btsink → History → ℤ × Btsink × History
start_stream p f a ds num_channels b t =
    let h = p.handle t in
    let (r1, t1) = call p (stream_open a ds) t in
    let (r2, t2) = call p (stream_start (some h)) t1 in
    let (r3, t3) = call p (stream_close (some h)) t2 in
    let b' = record b { stream_handle = some h } in
    if failed r1
    then (r1, record b { stream_handle = p.failed_handle t b.stream_handle }, t1)
    else if failed r2
    then (r2, b', t3)
    else (r2, record b' { is_running = true }, (set_volume p f (some h) num_channels b.volume t2).1)

-- The test for the two ports.
unfoldable pub start_ports :
    Pal
    → Floats
    → PalFormats
    → Junk
    → Btsink
    → Option PortConfig
    → Option PortConfig
    → History
    → ℤ × Btsink × History
start_ports p f formats junk b (some port_in) (some port_out) t =
    start_stream p f (attributes formats junk port_in port_out)
      (devices formats junk port_in port_out) port_in.default_map.channels b t
start_ports p f formats junk b _ _ t = (einval, b, t)

unfoldable pub start_btsink :
    Pal → Floats → PalFormats → Junk → Btsink → LoopbackConfig → History → ℤ × Btsink × History
start_btsink p f formats junk b conf t = start_ports p f formats junk b conf.in_port conf.out_port t

unfoldable pub stop_btsink : Pal → Btsink → History → ℤ × Btsink × History
stop_btsink p b t =
    let b1 = record b { is_running = false } in
    let (r1, t1) = call p (stream_stop b.stream_handle) t in
    let (r2, t2) = call p (stream_close b.stream_handle) t1 in
    if b.is_running
    then (if failed r1
        then (r1, b1, t1)
        else if failed r2
        then (r2, b1, t2)
        else (pos 0, record b1 { stream_handle = none }, t2))
    else (e_failure, b, t)

-- `deinit_btsink` frees the record: only the history is left.
unfoldable pub deinit_btsink : Pal → Option Btsink → LoopbackConfig → History → History
unfolding stop_btsink
deinit_btsink p none conf t = t
deinit_btsink p (some b) conf t =
    let t1 = if b.is_running then (stop_btsink p b t).2 else t in
    elim conf.in_port [
      | none ↦ t1
      | some port_in ↦ (set_device_connection_state p port_in.device false t1).1
    ]

-- The A2DP branches of `pa_pal_loopback_create`, `pa_pal_loopback_set_volume` and
-- `pa_pal_loopback_destroy`, the session methods: the global `btsink` is the record.
unfoldable pub loopback_create :
    Pal → Floats → PalFormats → Junk → LoopbackConfig → Btsink → History → ℤ × Btsink × History
loopback_create p f formats junk conf b t =
    if b.is_running then (pos 0, b, t) else start_btsink p f formats junk b conf t

abbrev pub channels_of : Option PortConfig → ℕ
channels_of none = 0
channels_of (some port) = port.default_map.channels

unfoldable pub loopback_set_volume :
    Pal → Floats → LoopbackConfig → ℕ → Btsink → History → ℤ × Btsink × History
loopback_set_volume p f conf vol b t =
    let (r, t') = set_volume p f b.stream_handle (channels_of conf.out_port) vol t in
    (r, record b { volume = vol }, t')

unfoldable pub loopback_destroy : Pal → Btsink → History → ℤ × Btsink × History
loopback_destroy p b t = if b.is_running then stop_btsink p b t else (pos 0, b, t)
