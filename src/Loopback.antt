-- ===== src/Loopback.antt =====
-- What the loopbacks are set up with: the ports and loopbacks of the configuration (inc/pal-card.h,
-- inc/pal-loopback.h), the record of a hands-free call (inc/hfp.h), and the attributes and devices of
-- its two streams, which `start_hfp` of modules/pa-pal-plugins/module-pal-card/src/hfp.c fills in.
use audioreach_pulseaudio_pl.Channel.{ChannelMap, channel_map_to_pal}
use audioreach_pulseaudio_pl.Pal.{
  ChInfo, Device, Handle, MediaConfig, PalDevice, PalFormats, StreamAttributes, audio_input_output,
  entry, loopback, loopback_hfp_rx, loopback_hfp_tx,
}
use audioreach_pulseaudio_pl.Base.{Bool, List, Option, [], negsuc, ℕ, ℤ, ◌∷◌}

-- The fields of `pa_pal_card_port_config` that the loopbacks read.
pub record PortConfig : Type 0 where
  pub device : Device
  pub rate : ℕ
  pub default_map : ChannelMap

-- `pa_pal_loopback_config`, by the first port of each of its maps.
pub record LoopbackConfig : Type 0 where
  pub in_port : Option PortConfig
  pub out_port : Option PortConfig

-- `btsco_t` of inc/hfp.h
pub record Btsco : Type 0 where
  pub is_running : Bool
  pub rx_mute : Bool
  pub tx_mute : Bool
  pub rx_volume : ℕ
  pub tx_volume : ℕ
  pub sample_rate : ℕ
  pub rx_stream_handle : Handle
  pub tx_stream_handle : Handle

abbrev pub default_bit_width : ℕ
default_bit_width = 16

abbrev pub default_sample_rate : ℕ
default_sample_rate = 16000

-- E_FAILURE of inc/pal-loopback.h
abbrev pub e_failure : ℤ
e_failure = negsuc 0

-- A media configuration of zeros.
abbrev pub zero_config : MediaConfig
zero_config = record {
  sample_rate = 0;
  bit_width = 0;
  aud_fmt_id = 0;
  ch_info = record { channels = 0; ch_map = λ i. entry 0 };
}

abbrev pub media : PalFormats → ℕ → ChInfo → MediaConfig
media formats rate info = record {
  sample_rate = rate;
  bit_width = default_bit_width;
  aud_fmt_id = formats.pcm_s16_le;
  ch_info = info;
}

-- The attributes of the receive stream, and its devices. `junk` is what the uninitialised `ch_info`
-- holds.
abbrev pub rx_info : ChInfo → PortConfig → ChInfo
rx_info junk rx_in = (channel_map_to_pal rx_in.default_map junk).1

abbrev pub rx_attributes : PalFormats → ChInfo → Btsco → PortConfig → PortConfig → StreamAttributes
rx_attributes formats junk b rx_in rx_out = record {
  stream_type = loopback;
  loopback_type = loopback_hfp_rx;
  direction = audio_input_output;
  in_media_config = media formats b.sample_rate (rx_info junk rx_in);
  out_media_config = media formats rx_out.rate (rx_info junk rx_in);
}

abbrev pub rx_in_device : PalFormats → ChInfo → Btsco → PortConfig → PalDevice
rx_in_device formats junk b rx_in = record {
  id = rx_in.device;
  config = media formats b.sample_rate (rx_info junk rx_in);
  custom_key = "";
}

abbrev pub rx_out_device : PortConfig → PalDevice
rx_out_device rx_out = record {
  id = rx_out.device;
  config = zero_config;
  custom_key = "hfp-usecase";
}

-- The transmit stream uses the array `devices` again: index 0 is now its input, with the
-- configuration of the receive stream's input, and index 1 its output, with the custom key of the
-- receive stream's output.
abbrev pub tx_info : ChInfo → PortConfig → PortConfig → ChInfo
tx_info junk rx_in tx_out = (channel_map_to_pal tx_out.default_map (rx_info junk rx_in)).1

abbrev pub tx_attributes :
    PalFormats → ChInfo → Btsco → PortConfig → PortConfig → PortConfig → StreamAttributes
tx_attributes formats junk b rx_in tx_in tx_out = record {
  stream_type = loopback;
  loopback_type = loopback_hfp_tx;
  direction = audio_input_output;
  in_media_config = media formats b.sample_rate (tx_info junk rx_in tx_out);
  out_media_config = media formats tx_in.rate (tx_info junk rx_in tx_out);
}

abbrev pub tx_devices :
    PalFormats → ChInfo → Btsco → PortConfig → PortConfig → PortConfig → List PalDevice
tx_devices formats junk b rx_in tx_in tx_out =
    record (rx_in_device formats junk b rx_in) { id = tx_in.device }
    ∷ record {
      id = tx_out.device;
      config = media formats b.sample_rate (tx_info junk rx_in tx_out);
      custom_key = "hfp-usecase";
    }
    ∷ []
