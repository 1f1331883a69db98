-- ===== src/HdmiOut/Tests.antt =====
-- The theorems on the HDMI jack at concrete messages.
use audioreach_pulseaudio_pl.HdmiOut.Events.{callbacks, follow, follow-callbacks}
use audioreach_pulseaudio_pl.HdmiOut.{Found, display_switch_name, hdmi_key, name_key, jack_error}
use audioreach_pulseaudio_pl.Channel.{ChannelMap, mono}
use audioreach_pulseaudio_pl.Base.{List, [], none, pos, some, ℕ, ℤ, ◌∷◌, ◌≡◌, ◌-◌}

abbrev stereo : ChannelMap
stereo = record { channels = 2; positions = λ i. mono }

-- The value of the first byte as a digit.
abbrev first_digit : List ℕ → ℤ
first_digit [] = pos 0
first_digit (b ∷ bytes) = pos (b - 48)

abbrev join : List ℕ → List ℕ → List ℕ
join [] ys = ys
join (x ∷ xs) ys = x ∷ join xs ys

-- "NAME=soc:qcom,msm-ext-disp" and "HDMI=1", with a zero byte between them.
abbrev plug_message : List ℕ
plug_message = join name_key (join display_switch_name (0 ∷ join hdmi_key (49 ∷ [])))

follow-callbacks_example :
    let (last, fired) =
      callbacks first_digit stereo (plug_message ∷ plug_message ∷ []) jack_error in
    follow fired jack_error ≡ some last
follow-callbacks_example =
    follow-callbacks first_digit stereo (plug_message ∷ plug_message ∷ []) jack_error

abbrev nothing_found : Found
nothing_found = record { switch_name = none; switch_state = none; dp_switch_state = none }
