-- ===== src/Ports/Tests.antt =====
-- The theorems on port and device names at concrete names.
use audioreach_pulseaudio_pl.Pal.{out_speaker}
use audioreach_pulseaudio_pl.Ports.{
  device_name_to_enum, find_device, find_port, get_jack_type_from_port_name,
  get_port_name_from_jack_type, hdmi_out, port_name_to_enum,
}
use audioreach_pulseaudio_pl.Base.{String, refl, some, ◌≡◌}
use audioreach_pulseaudio_pl.Ports.JackNames.{jack_type-port_name}

jack_type-port_name_example :
    (name : String) × (get_port_name_from_jack_type hdmi_out ≡ some name)
    × (get_jack_type_from_port_name name ≡ hdmi_out)
jack_type-port_name_example = jack_type-port_name hdmi_out (λ e. cc e)

speaker_found : port_name_to_enum "speaker" ≡ out_speaker
unfolding port_name_to_enum find_port
speaker_found = refl

device_found : device_name_to_enum "PAL_DEVICE_OUT_SPEAKER" ≡ out_speaker
unfolding device_name_to_enum find_device
device_found = refl
