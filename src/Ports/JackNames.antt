-- ===== src/Ports/JackNames.antt =====
-- The table of jack types and port names of pal-utils.c.
use audioreach_pulseaudio_pl.Base.{
  Bool-cases, List, String, [], ap, inl, inr, refl, some, ◌∙◌, ◌∷◌, ◌≡◌, ◌≢◌,
}
use audioreach_pulseaudio_pl.Ports.{
  JackType, bta2dp_in, bta2dp_out, btsco_in, btsco_out, display_in, find_jack_type,
  get_jack_type_from_port_name, get_port_name_from_jack_type, hdmi_arc, hdmi_in, hdmi_out,
  jack_invalid, lineout, spdif, spdif_out_coaxial, spdif_out_optical, wired_headphone,
  wired_headset, wired_headset_buttons, jack_type_to_port_name,
}
use text.Mathlib.Text.{◌==◌ as str_eq}
use text.Mathlib.TextEquality.{eq_iff}

-- Each jack type but the invalid one has a port name, from which it is found again.
pub jack_type-port_name :
    (j : JackType)
    → j ≢ jack_invalid
    → (name : String) × (get_port_name_from_jack_type j ≡ some name)
      × (get_jack_type_from_port_name name ≡ j)
unfolding get_port_name_from_jack_type get_jack_type_from_port_name
jack_type-port_name jack_invalid h = absurd (h refl)
jack_type-port_name wired_headset h = ("headset", refl, refl)
jack_type-port_name wired_headphone h = ("headphone", refl, refl)
jack_type-port_name lineout h = ("lineout", refl, refl)
jack_type-port_name wired_headset_buttons h = ("headset-mic", refl, refl)
jack_type-port_name hdmi_in h = ("hdmi-in", refl, refl)
jack_type-port_name bta2dp_out h = ("bta2dp-out", refl, refl)
jack_type-port_name bta2dp_in h = ("bta2dp-in", refl, refl)
jack_type-port_name hdmi_arc h = ("hdmi-arc", refl, refl)
jack_type-port_name spdif h = ("spdif-in", refl, refl)
jack_type-port_name btsco_in h = ("btsco-in", refl, refl)
jack_type-port_name btsco_out h = ("btsco-out", refl, refl)
jack_type-port_name hdmi_out h = ("hdmi-out", refl, refl)
jack_type-port_name spdif_out_optical h = ("spdif-out-optical", refl, refl)
jack_type-port_name spdif_out_coaxial h = ("spdif-out-coaxial", refl, refl)
jack_type-port_name display_in h = ("dp-in", refl, refl)

-- A row of the table is found again from its jack type.
abbrev RowsAgree : List (JackType × String) → Type 0
RowsAgree [] = Unit {0}
RowsAgree ((jack, port) ∷ rows) = (get_port_name_from_jack_type jack ≡ some port) × RowsAgree rows

found_row :
    (name : String) (rows : List (JackType × String))
    → RowsAgree rows
    → find_jack_type name rows ≢ jack_invalid
    → get_port_name_from_jack_type (find_jack_type name rows) ≡ some name
unfolding find_jack_type
found_row name [] r h = absurd (h refl)
found_row name ((jack, port) ∷ rows) r h = elim (Bool-cases (str_eq port name)) [
  | inl e ↦ rw e (r.0 ∙ ap some ((eq_iff port name).0 e))
  | inr e ↦ rw e (found_row name rows r.1 (rw e at h))
]

table_agrees : RowsAgree jack_type_to_port_name
unfolding get_port_name_from_jack_type
table_agrees = (
  refl,
  (
    refl,
    (
      refl,
      (
        refl,
        (refl, (refl, (refl, (refl, (refl, (refl, (refl, (refl, (refl, (refl, (refl, tt))))))))))),
      ),
    ),
  ),
)

-- The other way round: a name that has a jack type, the invalid one aside, is the port name of that
-- type.
port_name-jack_type :
    (name : String)
    → get_jack_type_from_port_name name ≢ jack_invalid
    → get_port_name_from_jack_type (get_jack_type_from_port_name name) ≡ some name
unfolding get_jack_type_from_port_name
port_name-jack_type name h = found_row name jack_type_to_port_name table_agrees h
