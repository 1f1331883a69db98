-- ===== src/A2dp/Tests.antt =====
-- The theorems on the A2DP sink at a concrete session.
use audioreach_pulseaudio_pl.Loopback.{LoopbackConfig, PortConfig}
use audioreach_pulseaudio_pl.Pal.{in_bluetooth_a2dp, out_speaker}
use audioreach_pulseaudio_pl.A2dp.{
  Junk, loopback_create, loopback_set_volume, new_btsink, start_btsink, stop_btsink,
}
use audioreach_pulseaudio_pl.Base.{[], failed, false, inl, refl, some, true, ◌∷◌, ◌≡◌, ◌⊎◌}
use audioreach_pulseaudio_pl.Channel.{mono}
use audioreach_pulseaudio_pl.A2dp.Lifetime.{stop-start_btsink, StopOutcome}
use audioreach_pulseaudio_pl.A2dp.Sessions.{HoldsStream, run, sessions-safe, create, destroy}
use audioreach_pulseaudio_pl.A2dp.Dangling.{set_volume-after-refusal}
use audioreach_pulseaudio_pl.Pal.Live.{live, safe}
use audioreach_pulseaudio_pl.Pal.Examples.{
  some_floats, some_formats, some_info, working, refuses_start,
}

abbrev in_port_config : PortConfig
in_port_config = record {
  device = in_bluetooth_a2dp;
  rate = 48000;
  default_map = record { channels = 1; positions = λ i. mono };
}

abbrev out_port_config : PortConfig
out_port_config = record in_port_config { device = out_speaker }

abbrev conf : LoopbackConfig
conf = record { in_port = some in_port_config; out_port = some out_port_config }

abbrev junk : Junk
junk = record { info = some_info; key = "" }

stop-start_btsink_example :
    let (r, b1, t1) = start_btsink working some_floats some_formats junk (new_btsink 15) conf [] in
    ((failed r ≡ true) × (live working t1 ≡ []) × (b1.is_running ≡ false))
    ⊎ ((failed r ≡ false)
        × (live working t1 ≡ 0 ∷ [])
        × (b1.is_running ≡ true)
        × StopOutcome working b1 t1 [] (stop_btsink working b1 t1))
stop-start_btsink_example =
    stop-start_btsink working some_floats some_formats junk (new_btsink 15) conf []

sessions-safe_example :
    let (b', t') =
      run working some_floats some_formats junk
        (create conf ∷ create conf ∷ destroy ∷ [])
        (new_btsink 15)
        [] in
    HoldsStream working b' t' × (safe working t' ≡ true)
sessions-safe_example =
    sessions-safe working some_floats some_formats junk (create conf ∷ create conf ∷ destroy ∷ [])
      (new_btsink 15) [] (inl refl) refl

set_volume_example :
    let (r, b', t') =
      loopback_create refuses_start some_floats some_formats junk conf (new_btsink 15) [] in
    (failed r ≡ true)
    × (b'.stream_handle ≡ some 0)
    × (safe refuses_start (loopback_set_volume refuses_start some_floats conf 3 b' t').2 ≡ false)
set_volume_example =
    set_volume-after-refusal refuses_start some_floats some_formats junk conf in_port_config
      out_port_config 3 (new_btsink 15) [] refl refl refl refl refl refl (λ h. refl)
