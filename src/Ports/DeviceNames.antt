-- ===== src/Ports/DeviceNames.antt =====
-- The table of port names and PAL device names of pal-utils.c.
use audioreach_pulseaudio_pl.Ports.{
  device_name_to_enum, find_device, find_port, port_name_to_enum, port_to_pal_device,
}
use audioreach_pulseaudio_pl.Pal.{
  Device, device_none, in_aux_digital, in_bluetooth_a2dp, in_bluetooth_sco_headset, in_handset_mic,
  in_hdmi, in_line, in_speaker_mic, in_wired_headset, out_aux_digital, out_bluetooth_a2dp,
  out_bluetooth_sco, out_line, out_speaker, out_wired_headphone, out_wired_headset,
}
use audioreach_pulseaudio_pl.Base.{
  Bool-cases, List, String, [], ap, inl, inr, refl, sym, ◌∙◌, ◌∷◌, ◌≡◌, ◌≢◌,
}
use text.Mathlib.Text.{◌==◌ as str_eq}
use text.Mathlib.TextEquality.{eq_iff}

-- The port and the name of each device that the table lists.
abbrev port_of : Device → String
port_of device_none = ""
port_of out_speaker = "speaker"
port_of out_line = "lineout"
port_of out_wired_headset = "headset"
port_of out_wired_headphone = "headphone"
port_of out_bluetooth_a2dp = "bta2dp-out"
port_of in_handset_mic = "builtin-mic"
port_of in_speaker_mic = "speaker-mic"
port_of in_wired_headset = "headset-mic"
port_of in_line = "linein"
port_of out_aux_digital = "hdmi-out"
port_of in_bluetooth_a2dp = "bta2dp-in"
port_of in_bluetooth_sco_headset = "btsco-in"
port_of out_bluetooth_sco = "btsco-out"
port_of in_hdmi = "hdmi-in"
port_of in_aux_digital = "dp-in"

abbrev name_of : Device → String
name_of device_none = ""
name_of out_speaker = "PAL_DEVICE_OUT_SPEAKER"
name_of out_line = "PAL_DEVICE_OUT_LINE"
name_of out_wired_headset = "PAL_DEVICE_OUT_WIRED_HEADSET"
name_of out_wired_headphone = "PAL_DEVICE_OUT_WIRED_HEADPHONE"
name_of out_bluetooth_a2dp = "PAL_DEVICE_OUT_BLUETOOTH_A2DP"
name_of in_handset_mic = "PAL_DEVICE_IN_HANDSET_MIC"
name_of in_speaker_mic = "PAL_DEVICE_IN_SPEAKER_MIC"
name_of in_wired_headset = "PAL_DEVICE_IN_WIRED_HEADSET"
name_of in_line = "PAL_DEVICE_IN_LINE"
name_of out_aux_digital = "PAL_DEVICE_OUT_AUX_DIGITAL"
name_of in_bluetooth_a2dp = "PAL_DEVICE_IN_BLUETOOTH_A2DP"
name_of in_bluetooth_sco_headset = "PAL_DEVICE_IN_BLUETOOTH_SCO_HEADSET"
name_of out_bluetooth_sco = "PAL_DEVICE_OUT_BLUETOOTH_SCO"
name_of in_hdmi = "PAL_DEVICE_IN_HDMI"
name_of in_aux_digital = "PAL_DEVICE_IN_AUX_DIGITAL"

abbrev RowsAgree : List (String × Device × String) → Type 0
RowsAgree [] = Unit {0}
RowsAgree ((port, device, name) ∷ rows) =
    (port_of device ≡ port) × (name_of device ≡ name) × RowsAgree rows

found_port :
    (name : String) (rows : List (String × Device × String))
    → RowsAgree rows
    → find_port name rows ≢ device_none
    → port_of (find_port name rows) ≡ name
unfolding find_port
found_port name [] r h = absurd (h refl)
found_port name ((port, device, d) ∷ rows) r h = elim (Bool-cases (str_eq name port)) [
  | inl e ↦ rw e (r.0 ∙ sym ((eq_iff name port).0 e))
  | inr e ↦ rw e (found_port name rows r.2 (rw e at h))
]

found_device :
    (name : String) (rows : List (String × Device × String))
    → RowsAgree rows
    → find_device name rows ≢ device_none
    → name_of (find_device name rows) ≡ name
unfolding find_device
found_device name [] r h = absurd (h refl)
found_device name ((port, device, d) ∷ rows) r h = elim (Bool-cases (str_eq name d)) [
  | inl e ↦ rw e (r.1 ∙ sym ((eq_iff name d).0 e))
  | inr e ↦ rw e (found_device name rows r.2 (rw e at h))
]

table_agrees : RowsAgree port_to_pal_device
table_agrees = (
  refl,
  refl,
  (
    refl,
    refl,
    (
      refl,
      refl,
      (
        refl,
        refl,
        (
          refl,
          refl,
          (
            refl,
            refl,
            (
              refl,
              refl,
              (
                refl,
                refl,
                (
                  refl,
                  refl,
                  (
                    refl,
                    refl,
                    (refl, refl, (refl, refl, (refl, refl, (refl, refl, (refl, refl, tt))))),
                  ),
                ),
              ),
            ),
          ),
        ),
      ),
    ),
  ),
)

-- No two port names have the same PAL device, those without a device aside.
port_name_to_enum-injective :
    (a b : String)
    → port_name_to_enum a ≢ device_none
    → port_name_to_enum a ≡ port_name_to_enum b
    → a ≡ b
unfolding port_name_to_enum
port_name_to_enum-injective a b h e =
    sym (found_port a port_to_pal_device table_agrees h)
    ∙ ap port_of e
    ∙ found_port b port_to_pal_device table_agrees (λ n. h (e ∙ n))

-- No two PAL device names stand for the same device, those that stand for none aside.
device_name_to_enum-injective :
    (a b : String)
    → device_name_to_enum a ≢ device_none
    → device_name_to_enum a ≡ device_name_to_enum b
    → a ≡ b
unfolding device_name_to_enum
device_name_to_enum-injective a b h e =
    sym (found_device a port_to_pal_device table_agrees h)
    ∙ ap name_of e
    ∙ found_device b port_to_pal_device table_agrees (λ n. h (e ∙ n))
