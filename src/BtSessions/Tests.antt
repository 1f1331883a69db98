-- ===== src/BtSessions/Tests.antt =====
-- The theorems on the Bluetooth sessions at concrete answers of PAL.
use audioreach_pulseaudio_pl.Loopback.{LoopbackConfig, PortConfig}
use audioreach_pulseaudio_pl.Pal.{History, in_bluetooth_a2dp, out_speaker}
use audioreach_pulseaudio_pl.Pal.Examples.{working}
use audioreach_pulseaudio_pl.Channel.{mono}
use audioreach_pulseaudio_pl.A2dp.{init_btsink, deinit_btsink}
use audioreach_pulseaudio_pl.Hfp.{announce, init_btsco, set_btsco_params}
use audioreach_pulseaudio_pl.Volume.{set_device_connection_state}
use audioreach_pulseaudio_pl.BtSessions.{Module, bt_connect, bt_disconnect}
use audioreach_pulseaudio_pl.BtSessions.Counted.{IsConsistent}
use audioreach_pulseaudio_pl.BtSessions.Steps.{
  Reach-IsConsistent, connects, disconnects, here, next,
}
use audioreach_pulseaudio_pl.BtSessions.Collide.{reconnect_aborts}
use audioreach_pulseaudio_pl.Base.{
  Bool, List, Option, [], false, inl, mem, none, not, refl, some, true, ℕ, ◌≡◌,
}

abbrev port : PortConfig
port = record {
  device = in_bluetooth_a2dp;
  rate = 16000;
  default_map = record { channels = 1; positions = λ i. mono };
}

abbrev conf : LoopbackConfig
conf = record { in_port = some port; out_port = some (record port { device = out_speaker }) }

abbrev fresh_module : Module
fresh_module = record {
  btsink = none;
  btsco = none;
  bta2dp_conf = some conf;
  hfp_rx_conf = some conf;
  hfp_tx_conf = some conf;
  sessions = [];
  session_count = 0;
  filters = 0;
}

abbrev free_path : List ℕ → ℕ → Bool
free_path rows n = not (mem n rows)

abbrev state_after : Option (Bool × Module × History) → Module × History
state_after none = (fresh_module, [])
state_after (some (ok, m, t)) = (m, t)

abbrev one_session : Module × History
one_session = state_after (bt_connect working 10 10 free_path (some "bta2dp") fresh_module [])

abbrev two_sessions : Module × History
two_sessions =
    state_after (bt_connect working 10 10 free_path (some "btsco") one_session.0 one_session.1)

abbrev without_first : Module × History
without_first = state_after (bt_disconnect working (some "bta2dp") two_sessions.0 two_sessions.1)

fresh-IsConsistent : IsConsistent fresh_module
fresh-IsConsistent = record {
  counted = refl;
  distinct = tt;
  sink_there = inl refl;
  sco_there = inl refl;
}

Reach-IsConsistent_example : IsConsistent without_first.0
unfolding bt_connect bt_disconnect init_btsink init_btsco announce set_btsco_params
    set_device_connection_state deinit_btsink
Reach-IsConsistent_example =
    Reach-IsConsistent working 10 10 free_path fresh_module [] fresh-IsConsistent (
      next
        (next (next here (connects (some "bta2dp") true refl)) (connects (some "btsco") true refl))
        (disconnects (some "bta2dp") true refl))

taken : (rows : List ℕ) (n : ℕ) → mem n rows ≡ true → free_path rows n ≡ false
taken rows n e = simp e refl

reconnect_aborts_example :
    bt_connect working 10 10 free_path (some "bta2dp") without_first.0 without_first.1 ≡ none
unfolding bt_connect bt_disconnect init_btsink init_btsco announce set_btsco_params
    set_device_connection_state deinit_btsink
reconnect_aborts_example =
    reconnect_aborts working 10 10 free_path "bta2dp" "btsco" fresh_module one_session.0
      two_sessions.0 without_first.0 [] one_session.1 two_sessions.1 without_first.1 taken refl refl
      refl refl refl refl refl refl
