-- ===== src/Pal.antt =====
-- The boundary to the platform audio layer (PalApi.h, which the plugin only calls): the data of
-- its calls, the calls, the history of them, and what the layer answers.
--
-- A history lists the calls made so far, the latest first. What PAL answers is no code of the
-- plugin, so it is a parameter: any function of the history and of the call. Whatever takes a `Pal`
-- holds for each behaviour that PAL may show, a failure of any call included.
pub mod Live
pub mod Examples
use audioreach_pulseaudio_pl.Base.{ℕ, ℤ, Bool, true, false, List, [], ◌∷◌, Option, String}

-- The constants of `pal_device_id_t` that the plugin names.
pub data Device : Type 0 where
  device_none out_speaker out_line out_wired_headset out_wired_headphone out_bluetooth_a2dp : Device
  in_handset_mic in_speaker_mic in_wired_headset in_line out_aux_digital in_bluetooth_a2dp : Device
  in_bluetooth_sco_headset out_bluetooth_sco in_hdmi in_aux_digital : Device

-- The constants of `pal_stream_type_t` that the plugin names.
pub data StreamType : Type 0 where
  low_latency deep_buffer compressed_stream voip_tx voip_rx generic raw loopback : StreamType

-- `pal_stream_loopback_type_t`, with `no_loopback` where a stream sets none.
pub data LoopbackType : Type 0 where
  no_loopback loopback_pcm loopback_hfp_rx loopback_hfp_tx : LoopbackType

pub data Direction : Type 0 where
  no_direction audio_output audio_input audio_input_output : Direction

-- The constants of `uint32_t` channel positions (PAL_CHMAP_CHANNEL_*) that the plugin names; `entry`
-- is an entry of a channel map that the plugin has not written.
pub data PalChannel : Type 0 where
  ch_ms ch_fl ch_fr ch_c ch_ls ch_rs ch_lfe ch_rc ch_lb ch_rb ch_ts ch_tfc ch_flc ch_frc :
      PalChannel
  ch_sl ch_sr ch_tfl ch_tfr ch_tc ch_tbl ch_tbr ch_tbc ch_rlc ch_rrc : PalChannel
  entry : ℕ → PalChannel

-- `struct pal_channel_info`
pub record ChInfo : Type 0 where
  pub channels : ℕ
  pub ch_map : ℕ → PalChannel

-- `struct pal_media_config`
pub record MediaConfig : Type 0 where
  pub sample_rate : ℕ
  pub bit_width : ℕ
  pub aud_fmt_id : ℕ
  pub ch_info : ChInfo

-- The fields of `struct pal_stream_attributes` that the plugin writes.
pub record StreamAttributes : Type 0 where
  pub stream_type : StreamType
  pub loopback_type : LoopbackType
  pub direction : Direction
  pub in_media_config : MediaConfig
  pub out_media_config : MediaConfig

-- The fields of `struct pal_device` that the plugin writes.
pub record PalDevice : Type 0 where
  pub id : Device
  pub config : MediaConfig
  pub custom_key : String

-- The values of `pal_audio_fmt_t`; PalDefs.h gives the numbers, and two names may share one.
pub record PalFormats : Type 0 where
  pub default_pcm : ℕ
  pub pcm_s16_le : ℕ
  pub pcm_s24_le : ℕ
  pub pcm_s24_3le : ℕ
  pub pcm_s32_le : ℕ
  pub mp3 : ℕ
  pub aac : ℕ
  pub aac_adts : ℕ

pub data ScoParam : Type 0 where
  bt_sco bt_sco_wb : ScoParam

-- A stream handle is a number; NULL is `none`.
abbrev pub Handle : Type 0
Handle = Option ℕ

-- A call of a function of PalApi.h. A write names the part of the caller's chunk that it is given,
-- by offset and size. An assertion of the plugin that fails is an entry too, with no call after it in the
-- function that it stands in.
pub data PalCall : Type 0 where
  stream_open : StreamAttributes → List PalDevice → PalCall
  stream_start : Handle → PalCall
  stream_stop : Handle → PalCall
  stream_close : Handle → PalCall
  stream_pause : Handle → PalCall
  stream_flush : Handle → PalCall
  stream_drain : Handle → PalCall
  stream_set_volume : Handle → List (ℕ × ℕ) → PalCall
  stream_set_device : Handle → Device → PalCall
  stream_set_buffer_size : Handle → ℕ → ℕ → PalCall
  stream_set_codec_param : Handle → PalCall
  stream_write : Handle → ℕ → ℕ → PalCall
  set_device_connection : Device → Bool → PalCall
  set_btsco : ScoParam → Bool → Bool → PalCall
  set_a2dp_suspended : Bool → PalCall
  assertion_failed : PalCall

abbrev pub History : Type 0
History = List PalCall

-- What the layer answers after a history: the return code of each call, the handle that an open
-- which succeeds delivers, what an open which fails leaves in the handle variable, and whether an
-- allocation of the plugin succeeds; and what `pa_strlcpy` leaves of a key in the array of PAL's device,
-- whose size is PAL's.
pub record Pal : Type 0 where
  pub rc : History → PalCall → ℤ
  pub handle : History → ℕ
  pub failed_handle : History → Handle → Handle
  pub allocates : History → Bool
  pub key_in_array : String → String

-- One call: its return code, and the longer history.
abbrev pub call : Pal → PalCall → History → ℤ × History
call p c t = (p.rc t c, c ∷ t)
