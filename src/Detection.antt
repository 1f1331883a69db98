-- ===== src/Detection.antt =====
-- modules/pa-pal-plugins/module-pal-card/src/pal-format-detection.c: from what the kernel reports of
-- an incoming stream to the configuration of the jack. The reading of the files is not modelled.
--
-- `pa_channel_map_init` and `pa_channel_map_init_auto` are PulseAudio's: the parameter `blank` is
-- the map of the first, and `init_auto m n` is what the second leaves in the map `m`. The first
-- does not look at the map that it resets.
pub mod Accepted
mod Tests
use audioreach_pulseaudio_pl.Formats.{
  Encoding, encoding_dsd, encoding_pcm, unknown_4x_iec61937, unknown_hbr_iec61937, unknown_iec61937,
}
use audioreach_pulseaudio_pl.Sink.Rates.{SampleFormat, s16le, s32le}
use audioreach_pulseaudio_pl.Channel.{ChannelMap, channel_map_init, util_map}
use audioreach_pulseaudio_pl.Base.{
  Bool, List, [], false, get_or, if◌then◌else◌, mem, negsuc, not, pos, true, ℕ, ℤ, ◌%◌, ◌&&◌, ◌/◌,
  ◌==◌, ◌||◌, ◌∷◌, ltb, Option, none, some,
}

-- The constants PA_PAL_JACK_INPUT_MODE_* and the others by a number.
pub data InputMode : Type 0 where
  pcm compress dsd : InputMode
  other_mode : ℕ → InputMode

-- `pa_pal_jack_sys_node_config_t`
pub record SysNodeConfig : Type 0 where
  pub sample_rate : ℕ
  pub bitwidth : ℕ
  pub channels : ℕ
  pub layout : ℕ
  pub channel_allocation : ℕ
  pub mode : InputMode
  pub preemph_status : ℤ

-- The fields of `pa_pal_jack_out_config` of inc/pal-jack-format.h that the plugin writes here.
pub record JackOutConfig : Type 0 where
  pub encoding : Encoding
  pub rate : ℕ
  pub format : SampleFormat
  pub ss_channels : ℕ
  pub map : ChannelMap
  pub preemph_status : ℤ

abbrev pub supported_pcm_sample_rates : List ℕ
supported_pcm_sample_rates = 32000 ∷ 44100 ∷ 48000 ∷ 88200 ∷ 96000 ∷ 176400 ∷ 192000 ∷ []

abbrev pub is_pcm_sample_rate_valid : ℕ → Bool
is_pcm_sample_rate_valid rate = mem rate supported_pcm_sample_rates

abbrev pub default_num_channels : ℕ
default_num_channels = 2

abbrev pub is_dsd : InputMode → Bool
is_dsd dsd = true
is_dsd _ = false

abbrev pub is_compress : InputMode → Bool
is_compress compress = true
is_compress _ = false

-- The defaults for a rate and a number of channels of 0.
unfoldable pub fill_defaults : SysNodeConfig → SysNodeConfig
fill_defaults sys = record sys {
  sample_rate =
      if sys.sample_rate == 0 then (if is_dsd sys.mode then 44100 else 48000) else sys.sample_rate;
  channels = if sys.channels == 0 then default_num_channels else sys.channels;
}

-- What is set before the layout is looked at.
unfoldable pub start_config :
    ChannelMap → (ChannelMap → ℕ → ChannelMap) → SysNodeConfig → JackOutConfig → JackOutConfig
start_config blank init_auto sys jack =
    let map = if is_dsd sys.mode then init_auto blank 6 else init_auto blank 2 in
    record jack {
      preemph_status = if is_compress sys.mode then pos 0 else sys.preemph_status;
      rate = sys.sample_rate;
      format = if is_dsd sys.mode then s32le else s16le;
      map = map;
      ss_channels = map.channels;
    }

abbrev pub with_map : ChannelMap → JackOutConfig → JackOutConfig
with_map m jack = record jack { map = m; ss_channels = m.channels }

-- The configuration with a map that was laid out.
abbrev pub with_util_map : Option ChannelMap → JackOutConfig → Option (Bool × JackOutConfig)
with_util_map none jack = none
with_util_map (some m) jack = some (true, with_map m jack)

-- The encoding by mode and layout; false is the jump to `exit`.
unfoldable pub set_encoding :
    ChannelMap → InputMode → SysNodeConfig → JackOutConfig → Option (Bool × JackOutConfig)
set_encoding blank pcm sys jack =
    let j = record jack { encoding = encoding_pcm } in
    if sys.layout == 1
    then some (true, with_map (record blank { channels = sys.channels % 256 }) j)
    else some (true, j)
set_encoding blank compress sys jack =
    if sys.layout == 0
    then (if sys.sample_rate == 192000 || sys.sample_rate == 176400
        then some (true, record jack { encoding = unknown_4x_iec61937; rate = sys.sample_rate / 4 })
        else some (true, record jack { encoding = unknown_iec61937 }))
    else if sys.layout == 1
    then with_util_map (util_map blank 8) (record jack { encoding = unknown_hbr_iec61937 })
    else some (false, jack)
set_encoding blank dsd sys jack =
    with_util_map (util_map blank sys.channels) (record jack { encoding = encoding_dsd })
set_encoding blank (other_mode n) sys jack = some (false, jack)

-- The switch that checks the rate for the encoding.
abbrev pub rate_fits : Encoding → ℕ → Bool
rate_fits encoding_pcm rate = is_pcm_sample_rate_valid rate
rate_fits unknown_iec61937 rate = mem rate (32000 ∷ 44100 ∷ 48000 ∷ [])
rate_fits unknown_4x_iec61937 rate = mem rate (176400 ∷ 192000 ∷ [])
rate_fits unknown_hbr_iec61937 rate = mem rate (176400 ∷ 192000 ∷ [])
rate_fits encoding_dsd rate = mem rate (44100 ∷ 88200 ∷ [])
rate_fits _ rate = false

-- The check of the rate, after the encoding.
abbrev checked_rate :
    SysNodeConfig → Option (Bool × JackOutConfig) → Option (ℤ × SysNodeConfig × JackOutConfig)
checked_rate sys none = none
checked_rate sys (some (known, jack)) =
    if known
    then (if rate_fits jack.encoding sys.sample_rate
        then some (pos 0, sys, jack)
        else some (negsuc 0, sys, jack))
    else some (negsuc 0, sys, jack)

-- The result is the code, the system's configuration with the defaults, and the jack's; none where an
-- assertion fails.
unfoldable pub config_to_jack_config :
    ChannelMap
    → (ChannelMap → ℕ → ChannelMap)
    → SysNodeConfig
    → JackOutConfig
    → Option (ℤ × SysNodeConfig × JackOutConfig)
config_to_jack_config blank init_auto sys jack =
    let sys1 = fill_defaults sys in
    let jack1 = start_config blank init_auto sys1 jack in
    if not (sys.layout == 0) && not (sys.layout == 1)
    then some (negsuc 0, sys1, jack1)
    else checked_rate sys1 (set_encoding blank sys1.mode sys1 jack1)

-- `pa_pal_format_detection_get_num_channels`, of a count that is not negative.
abbrev pub get_num_channels : ℤ → ℕ
get_num_channels (pos n) = if ltb 0 n && ltb n 9 then n else default_num_channels
get_num_channels (negsuc n) = default_num_channels
