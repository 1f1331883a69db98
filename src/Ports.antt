-- ===== src/Ports.antt =====
-- The tables of modules/pa-pal-plugins/module-pal-card/src/pal-utils.c by name: ports and PAL
-- devices, jack types and ports, and the words of `avoid-processing`. `pa_streq` is equality of
-- texts.
pub mod JackNames
pub mod DeviceNames
mod Tests
use audioreach_pulseaudio_pl.Base.{
  Bool, List, Option, String, [], find_row, if◌then◌else◌, true, ℕ, ◌==◌, ◌||◌, ◌∷◌,
}
use audioreach_pulseaudio_pl.Pal.{
  Device, device_none, in_aux_digital, in_bluetooth_a2dp, in_bluetooth_sco_headset, in_handset_mic,
  in_hdmi, in_line, in_speaker_mic, in_wired_headset, out_aux_digital, out_bluetooth_a2dp,
  out_bluetooth_sco, out_line, out_speaker, out_wired_headphone, out_wired_headset,
}
use text.Mathlib.Text.{◌==◌ as str_eq}

-- `pa_pal_jack_type_t` of inc/pal-jack.h
pub data JackType : Type 0 where
  jack_invalid wired_headset wired_headphone lineout wired_headset_buttons hdmi_in : JackType
  bta2dp_out bta2dp_in hdmi_arc spdif btsco_in btsco_out hdmi_out : JackType
  spdif_out_optical spdif_out_coaxial display_in : JackType

-- The values of the enumeration; PA_PAL_JACK_TYPE_INVALID, which is -1, stands as 0.
abbrev jack_code : JackType → ℕ
jack_code jack_invalid = 0
jack_code wired_headset = 0x1
jack_code wired_headphone = 0x2
jack_code lineout = 0x4
jack_code wired_headset_buttons = 0x8
jack_code hdmi_in = 0x10
jack_code bta2dp_out = 0x20
jack_code bta2dp_in = 0x40
jack_code hdmi_arc = 0x80
jack_code spdif = 0x100
jack_code btsco_in = 0x200
jack_code btsco_out = 0x400
jack_code hdmi_out = 0x800
jack_code spdif_out_optical = 0x1000
jack_code spdif_out_coaxial = 0x2000
jack_code display_in = 0x4000

abbrev pub same_jack : JackType → JackType → Bool
same_jack a b = jack_code a == jack_code b

-- `port_to_pal_device`: a port's name, its device, and the device's name.
abbrev pub port_to_pal_device : List (String × Device × String)
port_to_pal_device =
    ("speaker", out_speaker, "PAL_DEVICE_OUT_SPEAKER")
    ∷ ("lineout", out_line, "PAL_DEVICE_OUT_LINE")
    ∷ ("headset", out_wired_headset, "PAL_DEVICE_OUT_WIRED_HEADSET")
    ∷ ("headphone", out_wired_headphone, "PAL_DEVICE_OUT_WIRED_HEADPHONE")
    ∷ ("bta2dp-out", out_bluetooth_a2dp, "PAL_DEVICE_OUT_BLUETOOTH_A2DP")
    ∷ ("builtin-mic", in_handset_mic, "PAL_DEVICE_IN_HANDSET_MIC")
    ∷ ("speaker-mic", in_speaker_mic, "PAL_DEVICE_IN_SPEAKER_MIC")
    ∷ ("headset-mic", in_wired_headset, "PAL_DEVICE_IN_WIRED_HEADSET")
    ∷ ("linein", in_line, "PAL_DEVICE_IN_LINE")
    ∷ ("hdmi-out", out_aux_digital, "PAL_DEVICE_OUT_AUX_DIGITAL")
    ∷ ("bta2dp-in", in_bluetooth_a2dp, "PAL_DEVICE_IN_BLUETOOTH_A2DP")
    ∷ ("btsco-in", in_bluetooth_sco_headset, "PAL_DEVICE_IN_BLUETOOTH_SCO_HEADSET")
    ∷ ("btsco-out", out_bluetooth_sco, "PAL_DEVICE_OUT_BLUETOOTH_SCO")
    ∷ ("hdmi-in", in_hdmi, "PAL_DEVICE_IN_HDMI")
    ∷ ("dp-in", in_aux_digital, "PAL_DEVICE_IN_AUX_DIGITAL")
    ∷ []

-- The two searches of the table; a name that no row has gives PAL_DEVICE_NONE.
unfoldable pub find_port : String → List (String × Device × String) → Device
find_port name [] = device_none
find_port name ((port, device, device_name) ∷ rows) =
    if str_eq name port then device else find_port name rows

unfoldable pub find_device : String → List (String × Device × String) → Device
find_device name [] = device_none
find_device name ((port, device, device_name) ∷ rows) =
    if str_eq name device_name then device else find_device name rows

unfoldable pub port_name_to_enum : String → Device
unfolding find_port
port_name_to_enum name = find_port name port_to_pal_device

unfoldable pub device_name_to_enum : String → Device
unfolding find_device
device_name_to_enum name = find_device name port_to_pal_device

-- `jack_type_to_port_name`
abbrev pub jack_type_to_port_name : List (JackType × String)
jack_type_to_port_name =
    (wired_headset, "headset")
    ∷ (wired_headset_buttons, "headset-mic")
    ∷ (wired_headphone, "headphone")
    ∷ (lineout, "lineout")
    ∷ (hdmi_in, "hdmi-in")
    ∷ (display_in, "dp-in")
    ∷ (bta2dp_out, "bta2dp-out")
    ∷ (bta2dp_in, "bta2dp-in")
    ∷ (hdmi_arc, "hdmi-arc")
    ∷ (spdif, "spdif-in")
    ∷ (btsco_in, "btsco-in")
    ∷ (btsco_out, "btsco-out")
    ∷ (hdmi_out, "hdmi-out")
    ∷ (spdif_out_optical, "spdif-out-optical")
    ∷ (spdif_out_coaxial, "spdif-out-coaxial")
    ∷ []

unfoldable pub find_jack_type : String → List (JackType × String) → JackType
find_jack_type name [] = jack_invalid
find_jack_type name ((jack, port) ∷ rows) =
    if str_eq port name then jack else find_jack_type name rows

unfoldable pub get_jack_type_from_port_name : String → JackType
unfolding find_jack_type
get_jack_type_from_port_name name = find_jack_type name jack_type_to_port_name

-- `none` is NULL.
unfoldable pub get_port_name_from_jack_type : JackType → Option String
get_port_name_from_jack_type jack = find_row (λ row. same_jack row jack) jack_type_to_port_name

-- `pa_pal_card_avoid_processing_config_id_t` of inc/pal-card.h, whose values are sets of bits.
abbrev pub avoid_none : ℕ
avoid_none = 0

abbrev pub avoid_sample_rate : ℕ
avoid_sample_rate = 1

abbrev pub avoid_bit_width : ℕ
avoid_bit_width = 2

abbrev pub avoid_channels : ℕ
avoid_channels = 4

abbrev pub avoid_all : ℕ
avoid_all = 7

unfoldable pub get_config_id_from_string : String → ℕ
get_config_id_from_string word =
    if str_eq word "all" || str_eq word "true"
    then avoid_all
    else if str_eq word "rate"
    then avoid_sample_rate
    else if str_eq word "bitwidth"
    then avoid_bit_width
    else if str_eq word "channels"
    then avoid_channels
    else avoid_none
