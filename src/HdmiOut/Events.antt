-- ===== src/HdmiOut/Events.antt =====
-- `jack_io_callback` of pal-jack-hdmi-out.c over any sequence of messages.
use audioreach_pulseaudio_pl.HdmiOut.{
  Fired, Flag, JackEvent, jack_io_callback, report, jack_available, jack_unavailable,
  jack_config_update, is_available, is_unavailable, flag_of, scan,
}
use audioreach_pulseaudio_pl.Channel.{ChannelMap}
use audioreach_pulseaudio_pl.Base.{
  List, Option, [], arith, if◌then◌else◌, none, refl, some, ℕ, ℤ, ◌∷◌, ◌≡◌, length, ◌∙◌,
}

abbrev pub append : List Fired → List Fired → List Fired
append [] rest = rest
append (e ∷ es) rest = e ∷ append es rest

-- The messages in order: the last status, and all events in order.
unfoldable pub callbacks :
    (List ℕ → ℤ) → ChannelMap → List (List ℕ) → JackEvent → JackEvent × List Fired
callbacks atoi auto_map [] status = (status, [])
callbacks atoi auto_map (message ∷ messages) status =
    let (status1, fired1) = jack_io_callback atoi auto_map message status in
    let (status2, fired2) = callbacks atoi auto_map messages status1 in
    (status2, append fired1 fired2)

-- A client that follows the events from a status: an "available" comes only where the jack was not,
-- an "unavailable" only where it was not known to be unavailable, and a configuration only while it
-- is available. `none` is an event out of turn.
abbrev pub follow_one : JackEvent → JackEvent → Option JackEvent
follow_one jack_available status = if is_available status then none else some jack_available
follow_one jack_unavailable status = if is_unavailable status then none else some jack_unavailable
follow_one jack_config_update status = if is_available status then some status else none
follow_one _ status = none

abbrev pub follow : List Fired → JackEvent → Option JackEvent
follow [] status = some status
follow (e ∷ es) status = elim (follow_one e.event status) [
  | none ↦ none
  | some status' ↦ follow es status'
]

follow-report :
    (auto_map : ChannelMap) (flag : Flag) (status : JackEvent) (rest : List Fired)
    → follow (append (report auto_map flag status).1 rest) status
      ≡ follow rest (report auto_map flag status).0
unfolding report
follow-report auto_map flag status rest = ground arith

-- The flag that the scan of a whole message gives.
abbrev flag_of_message : (List ℕ → ℤ) → List ℕ → Flag
flag_of_message atoi message = flag_of atoi (
    scan (length message) message
      (record { switch_name = none; switch_state = none; dp_switch_state = none }))

-- Whatever messages come, a client that follows the events never gets one out of turn, and always
-- knows the status of the jack.
pub follow-callbacks :
    (atoi : List ℕ → ℤ) (auto_map : ChannelMap) (messages : List (List ℕ)) (status : JackEvent)
    → let (last, fired) = callbacks atoi auto_map messages status in follow fired status ≡ some last
unfolding callbacks jack_io_callback
follow-callbacks atoi auto_map [] status = refl
follow-callbacks atoi auto_map (message ∷ messages) status =
    let next = jack_io_callback atoi auto_map message status in
    follow-report auto_map (flag_of_message atoi message) status
      (callbacks atoi auto_map messages next.0).1
    ∙ follow-callbacks atoi auto_map messages next.0
