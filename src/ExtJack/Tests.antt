-- ===== src/ExtJack/Tests.antt =====
-- The theorems on the external jack's thread at concrete requests.
use audioreach_pulseaudio_pl.ExtJack.Thread.{
  Async, announce_param, firing, new_async, reading, receive_param, state_set_param, thread_step,
  waiting,
}
use audioreach_pulseaudio_pl.Ports.{bta2dp_in, hdmi_in}
use audioreach_pulseaudio_pl.Base.{[], false, none, refl, some, ◌∷◌, ◌≡◌}
use audioreach_pulseaudio_pl.ExtJack.Requests.{
  Accounted, Run-Accounted, announced, begin, received, stepped,
}
use audioreach_pulseaudio_pl.ExtJack.Served.{request_lost}

abbrev at_rest : Async
at_rest = record new_async { place = waiting }

abbrev asked : Async
asked = announce_param bta2dp_in (receive_param "sample_rate=48000" at_rest)

abbrev awake : Async
awake = record at_rest {
  param = "sample_rate=48000";
  external_jdata = some bta2dp_in;
  thread_state = state_set_param;
  place = reading;
}

to_rest : thread_step false new_async ≡ some at_rest
unfolding thread_step
to_rest = refl

to_awake : thread_step false asked ≡ some awake
unfolding thread_step announce_param receive_param
to_awake = refl

Run-Accounted_example : Accounted 1 awake
Run-Accounted_example =
    Run-Accounted (
      stepped (announced bta2dp_in (received "sample_rate=48000" (stepped begin to_rest))) to_awake)

abbrev overwritten : Async
overwritten = record awake {
  param = "sample_rate=44100";
  place = firing;
  fired = (some bta2dp_in, "sample_rate=44100") ∷ [];
}

abbrev in_hook : Async
in_hook = record awake { place = firing; fired = (some bta2dp_in, "sample_rate=48000") ∷ [] }

request_lost_example :
    let b = announce_param hdmi_in (receive_param "a2dp_suspend=true" in_hook) in
    (c : Async) × (thread_step false b ≡ some c)
    × (thread_step false c ≡ none)
    × (c.fired ≡ (some bta2dp_in, "sample_rate=48000") ∷ [])
    × (c.param ≡ "a2dp_suspend=true")
request_lost_example = request_lost "a2dp_suspend=true" hdmi_in in_hook refl
