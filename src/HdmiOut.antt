-- ===== src/HdmiOut.antt =====
-- modules/pa-pal-plugins/module-pal-card/src/pal-jack-hdmi-out.c: the jack of the HDMI output, from
-- the kernel's messages to the events that its clients get.
--
-- A message is the list of its bytes. The socket, the sysfs files and `atoi` are not the plugin's
-- code: the bytes received and the values read are arguments, and `atoi` is a parameter, a function
-- of the bytes from where it starts to the end of the message.
pub mod Scan
pub mod Events
mod Tests
use audioreach_pulseaudio_pl.Detection.{JackOutConfig}
use audioreach_pulseaudio_pl.Sink.Rates.{s16le}
use audioreach_pulseaudio_pl.Formats.{encoding_pcm}
use audioreach_pulseaudio_pl.Channel.{ChannelMap}
use audioreach_pulseaudio_pl.Base.{
  Bool, List, Option, [], equals_int, false, if◌then◌else◌, length, none, not, pos, some, suc, true,
  zero, ℕ, ℤ, ◌&&◌, ◌==◌, ◌||◌, ◌∷◌,
}

-- `pa_pal_jack_event_t`, also the status of the jack.
pub data JackEvent : Type 0 where
  jack_error jack_available jack_unavailable jack_config_update jack_no_valid_stream
        jack_set_param :
      JackEvent

abbrev pub is_available : JackEvent → Bool
is_available jack_available = true
is_available _ = false

abbrev pub is_unavailable : JackEvent → Bool
is_unavailable jack_unavailable = true
is_unavailable _ = false

-- An event with the configuration that it carries, if any.
pub record Fired : Type 0 where
  pub event : JackEvent
  pub info : Option JackOutConfig

-- The configuration `set_default_config` writes: `auto_map` is the map that PulseAudio's
-- `pa_channel_map_init_auto` gives for two channels.
abbrev pub default_config : ChannelMap → JackOutConfig
default_config auto_map = record {
  encoding = encoding_pcm;
  rate = 48000;
  format = s16le;
  ss_channels = 2;
  map = auto_map;
  preemph_status = pos 0;
}

abbrev pub available_events : ChannelMap → List Fired
available_events auto_map =
    record { event = jack_available; info = none }
    ∷ record { event = jack_config_update; info = some (default_config auto_map) }
    ∷ []

-- The check when the detection is enabled, by the values of the two files.
unfoldable pub check_hdmi_out_connection : ChannelMap → ℤ → ℤ → JackEvent → JackEvent × List Fired
check_hdmi_out_connection auto_map audio_path_value hdmi_tx_state status =
    if equals_int audio_path_value 1
    then (status, [])
    else if equals_int hdmi_tx_state 1
    then (jack_available, available_events auto_map)
    else (jack_unavailable, [])

-- The bytes of "NAME=", "HDMI=", "DP=" and EXT_HDMI_DISPLAY_SWITCH_NAME.
abbrev pub name_key : List ℕ
name_key = 78 ∷ 65 ∷ 77 ∷ 69 ∷ 61 ∷ []

abbrev pub hdmi_key : List ℕ
hdmi_key = 72 ∷ 68 ∷ 77 ∷ 73 ∷ 61 ∷ []

abbrev pub dp_key : List ℕ
dp_key = 68 ∷ 80 ∷ 61 ∷ []

abbrev pub display_switch_name : List ℕ
display_switch_name =
    115 ∷ 111 ∷ 99 ∷ 58 ∷ 113 ∷ 99 ∷ 111 ∷ 109 ∷ 44 ∷ 109 ∷ 115 ∷ 109 ∷ 45 ∷ 101 ∷ 120 ∷ 116 ∷ 45
    ∷ 100 ∷ 105 ∷ 115 ∷ 112 ∷ []

-- `pa_strneq` of the bytes with a whole key.
abbrev pub starts_with : List ℕ → List ℕ → Bool
starts_with [] bytes = true
starts_with (k ∷ key) [] = false
starts_with (k ∷ key) (b ∷ bytes) = if k == b then starts_with key bytes else false

abbrev pub drop : ℕ → List ℕ → List ℕ
drop zero bytes = bytes
drop (suc n) [] = []
drop (suc n) (b ∷ bytes) = drop n bytes

-- The three pointers that the scan sets, each as the bytes from there on.
pub record Found : Type 0 where
  pub switch_name : Option (List ℕ)
  pub switch_state : Option (List ℕ)
  pub dp_switch_state : Option (List ℕ)

-- One round of the scan: what is found, and the bytes that are left.
unfoldable pub scan_round : List ℕ → Found → List ℕ × Found
scan_round bytes f =
    if starts_with name_key bytes
    then (drop 5 bytes, record f { switch_name = some (drop 5 bytes) })
    else if starts_with hdmi_key bytes
    then (drop 5 bytes, record f { switch_state = some (drop 5 bytes) })
    else if starts_with dp_key bytes
    then (drop 3 bytes, record f { dp_switch_state = some (drop 3 bytes) })
    else (drop 1 bytes, f)

-- The scan, with fuel.
unfoldable pub scan : ℕ → List ℕ → Found → Found
scan zero bytes f = f
scan (suc fuel) [] f = f
scan (suc fuel) (b ∷ bytes) f = let (rest, f') = scan_round (b ∷ bytes) f in scan fuel rest f'

abbrev pub state_is : (List ℕ → ℤ) → Option (List ℕ) → ℕ → Bool
state_is atoi none n = false
state_is atoi (some bytes) n = equals_int (atoi bytes) n

abbrev pub names_display : Option (List ℕ) → Bool
names_display none = false
names_display (some bytes) = starts_with display_switch_name bytes

-- `hdmi_out_flag`: 1, -1 or 0.
pub data Flag : Type 0 where
  plugged unplugged neither : Flag

unfoldable pub flag_of : (List ℕ → ℤ) → Found → Flag
flag_of atoi f =
    if not (names_display f.switch_name)
    then neither
    else if state_is atoi f.switch_state 1 || state_is atoi f.dp_switch_state 1
    then plugged
    else if state_is atoi f.switch_state 0 && state_is atoi f.dp_switch_state 0
    then unplugged
    else neither

-- The end of `jack_io_callback`: the new status and the events that are fired, in order.
unfoldable pub report : ChannelMap → Flag → JackEvent → JackEvent × List Fired
report auto_map plugged status =
    if is_available status then (status, []) else (jack_available, available_events auto_map)
report auto_map unplugged status =
    if is_unavailable status
    then (status, [])
    else (jack_unavailable, record { event = jack_unavailable; info = none } ∷ [])
report auto_map neither status = (status, [])

unfoldable pub jack_io_callback :
    (List ℕ → ℤ) → ChannelMap → List ℕ → JackEvent → JackEvent × List Fired
unfolding scan flag_of
jack_io_callback atoi auto_map message status =
    report auto_map
      (flag_of atoi (
        scan (length message) message
          (record { switch_name = none; switch_state = none; dp_switch_state = none })))
      status
