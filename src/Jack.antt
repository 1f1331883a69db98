-- ===== src/Jack.antt =====
-- modules/pa-pal-plugins/module-pal-card/src/pal-jack.c: the registry of the jacks, each with the
-- number of its clients.
--
-- The hash map is PulseAudio's, here an association list. A handle is the jack type that its record
-- stores. The module's pointer and the hook slots are left out. Whether the detection of a jack can
-- be enabled is the answer of the jack's own code, the parameter `enables`. When the last client of a
-- jack goes, the code frees the jack's record and reads its type after that: what the freed memory reads
-- as, of the type that stood there, is the parameter `stale`. A deregistration where the map is NULL, or
-- of a type without a port name, has no result: PulseAudio's map asserts that it is there, and reads
-- the key.
pub mod Consistent
pub mod Clients
pub mod Holders
pub mod Held
pub mod Served
pub mod Refinement
mod Tests
use audioreach_pulseaudio_pl.Ports.{
  JackType, bta2dp_in, bta2dp_out, btsco_in, btsco_out, display_in, get_port_name_from_jack_type,
  hdmi_in, hdmi_out, lineout, same_jack, wired_headphone, wired_headset,
}
use audioreach_pulseaudio_pl.Base.{
  Bool, List, Option, String, [], false, if◌then◌else◌, is_some, none, not, some, suc, true, ℕ,
  ◌&&◌, ◌-◌, ◌==◌, ◌∷◌,
}
use text.Mathlib.Text.{◌==◌ as str_eq}

-- The fields of `struct pa_pal_jack_data` that the registry uses.
pub record JackData : Type 0 where
  pub jack_type : JackType
  pub ref_count : ℕ

-- `enabled_jacks`, a set of bits; whether `registered_jacks` is a map and not NULL; and its rows.
pub record Registry : Type 0 where
  pub enabled : JackType → Bool
  pub allocated : Bool
  pub registered : List (String × JackData)

abbrev pub hashmap_get : String → List (String × JackData) → Option JackData
hashmap_get name [] = none
hashmap_get name ((k, j) ∷ rows) = if str_eq k name then some j else hashmap_get name rows

abbrev pub hashmap_remove : String → List (String × JackData) → List (String × JackData)
hashmap_remove name [] = []
hashmap_remove name ((k, j) ∷ rows) =
    if str_eq k name then hashmap_remove name rows else (k, j) ∷ hashmap_remove name rows

-- A put where the key is there already changes nothing.
abbrev pub hashmap_put : String → JackData → List (String × JackData) → List (String × JackData)
hashmap_put name j rows = if is_some (hashmap_get name rows) then rows else (name, j) ∷ rows

-- A write through the pointer that the map holds.
abbrev pub store : String → JackData → List (String × JackData) → List (String × JackData)
store name j rows = (name, j) ∷ hashmap_remove name rows

-- `enabled_jacks ^= jack_type`; each type is one bit.
abbrev pub toggle_jack_status_bits : JackType → (JackType → Bool) → JackType → Bool
toggle_jack_status_bits jack enabled other =
    if same_jack jack other then not (enabled other) else enabled other

-- The jack types whose detection the switch enables.
abbrev pub is_detectable : JackType → Bool
is_detectable hdmi_out = true
is_detectable bta2dp_in = true
is_detectable bta2dp_out = true
is_detectable btsco_in = true
is_detectable btsco_out = true
is_detectable hdmi_in = true
is_detectable display_in = true
is_detectable _ = false

abbrev pub registered_type : JackType → JackType
registered_type lineout = wired_headset
registered_type wired_headphone = wired_headset
registered_type jack = jack

-- A jack that is enabled already gets one client more, if it is registered.
unfoldable pub add_client : String → Option JackData → Registry → Registry
add_client name none s = s
add_client name (some j) s = record s {
  registered = store name (record j { ref_count = suc j.ref_count }) s.registered;
}

unfoldable pub register_named :
    (JackType → Bool) → JackType → String → Registry → Option JackType × Registry
register_named enables jack name s =
    if s.enabled jack
    then (some jack, add_client name (hashmap_get name s.registered) s)
    else if is_detectable jack && enables jack
    then (
      some jack,
      record s {
        enabled = toggle_jack_status_bits jack s.enabled;
        registered = hashmap_put name (record { jack_type = jack; ref_count = 1 }) s.registered;
      },
    )
    else (none, s)

-- By the name of the jack's port, if it has one.
unfoldable pub register_port :
    (JackType → Bool) → JackType → Option String → Registry → Option JackType × Registry
register_port enables jack none s = (none, s)
register_port enables jack (some name) s = register_named enables jack name s

-- The result is the handle, or NULL, and the new registry, which has a map.
unfoldable pub register_event_callback :
    (JackType → Bool) → JackType → Registry → Option JackType × Registry
register_event_callback enables jack_type s =
    let jack = registered_type jack_type in
    register_port enables jack (get_port_name_from_jack_type jack) (record s { allocated = true })

abbrev pub is_empty : List (String × JackData) → Bool
is_empty [] = true
is_empty (row ∷ rows) = false

-- The registry once the map may be empty.
unfoldable pub when_empty : Registry → Registry
when_empty s =
    if is_empty s.registered then record s { enabled = λ jack. false; allocated = false } else s

unfoldable pub remove_client :
    (JackType → JackType) → String → Option JackData → Registry → Bool × Registry
remove_client stale name none s = (false, s)
remove_client stale name (some j) s =
    if j.ref_count == 1
    then (
      true,
      when_empty (record s {
        enabled = toggle_jack_status_bits (stale j.jack_type) s.enabled;
        registered = hashmap_remove name s.registered;
      }),
    )
    else (
      true,
      when_empty (record s {
        registered = store name (record j { ref_count = j.ref_count - 1 }) s.registered;
      }),
    )

unfoldable pub deregister_port :
    (JackType → JackType) → Option String → Registry → Option (Bool × Registry)
deregister_port stale none s = none
deregister_port stale (some name) s =
    if s.allocated then some (remove_client stale name (hashmap_get name s.registered) s) else none

unfoldable pub deregister_event_callback :
    (JackType → JackType) → JackType → Registry → Option (Bool × Registry)
deregister_event_callback stale handle s =
    deregister_port stale (get_port_name_from_jack_type handle) s
