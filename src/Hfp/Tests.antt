-- ===== src/Hfp/Tests.antt =====
-- The theorems on the hands-free profile at a concrete call.
use audioreach_pulseaudio_pl.Loopback.{
  Btsco, LoopbackConfig, PortConfig, e_failure, rx_attributes, tx_attributes,
}
use audioreach_pulseaudio_pl.Channel.{mono}
use audioreach_pulseaudio_pl.Pal.{History, in_speaker_mic, out_speaker, stream_open, stream_start}
use audioreach_pulseaudio_pl.Base.{[], failed, inl, none, refl, some, true, ◌∷◌, ◌≡◌, false, negsuc}
use audioreach_pulseaudio_pl.Hfp.{deinit_btsco, new_btsco, start_hfp, stop_hfp}
use audioreach_pulseaudio_pl.Hfp.Lifetime.{Outcome, IsStarted, start_hfp_lem, stop_hfp_lem}
use audioreach_pulseaudio_pl.Hfp.Sequences.{HoldsStreams, run, run-safe, start, stop}
use audioreach_pulseaudio_pl.Hfp.Leak.{stop_hfp-refused}
use audioreach_pulseaudio_pl.Pal.Live.{live, safe}
use audioreach_pulseaudio_pl.Pal.Examples.{
  some_floats, some_formats, some_info, working, refuses_stop, refuses_start,
}

abbrev mic_port : PortConfig
mic_port = record {
  device = in_speaker_mic;
  rate = 8000;
  default_map = record { channels = 1; positions = λ i. mono };
}

abbrev speaker_port : PortConfig
speaker_port = record {
  device = out_speaker;
  rate = 48000;
  default_map = record { channels = 1; positions = λ i. mono };
}

abbrev both_ports : LoopbackConfig
both_ports = record { in_port = some mic_port; out_port = some speaker_port }

abbrev idle : Btsco
idle = new_btsco 15 15

start_hfp_example :
    Outcome refuses_start idle []
      (start_hfp refuses_start some_floats some_formats some_info idle both_ports both_ports [])
start_hfp_example =
    start_hfp_lem refuses_start some_floats some_formats some_info idle both_ports both_ports []

abbrev in_call : Btsco
in_call = record idle { is_running = true; rx_stream_handle = some 0; tx_stream_handle = some 2 }

abbrev two_opens : History
two_opens =
    stream_open (tx_attributes some_formats some_info idle mic_port mic_port speaker_port) []
    ∷ stream_start (some 0)
    ∷ stream_open (rx_attributes some_formats some_info idle mic_port speaker_port) []
    ∷ []

call_started : IsStarted refuses_stop in_call two_opens []
call_started = record {
  rx = 0;
  tx = 2;
  rx_stored = refl;
  tx_stored = refl;
  running = refl;
  both_live = refl;
}

stop_hfp_example :
    let (r, b', t') = stop_hfp refuses_stop in_call two_opens in
    (r ≡ negsuc 0)
    × (live refuses_stop t' ≡ call_started.tx ∷ call_started.rx ∷ [])
    × (stop_hfp refuses_stop b' t' ≡ (e_failure, b', t'))
    × (live refuses_stop (deinit_btsco refuses_stop (some b') (some mic_port) none t')
        ≡ call_started.tx ∷ call_started.rx ∷ [])
stop_hfp_example =
    stop_hfp-refused refuses_stop in_call two_opens [] (some mic_port) none call_started refl

run_example :
    let ops = start both_ports both_ports ∷ stop ∷ start both_ports both_ports ∷ [] in
    HoldsStreams working
      (run working some_floats some_formats some_info ops idle []).0
      (run working some_floats some_formats some_info ops idle []).1
    × (safe working (run working some_floats some_formats some_info ops idle []).1 ≡ true)
run_example =
    run-safe working some_floats some_formats some_info
      (start both_ports both_ports ∷ stop ∷ start both_ports both_ports ∷ []) idle [] (inl refl)
      refl

call_started_again : IsStarted working in_call two_opens []
call_started_again = record {
  rx = 0;
  tx = 2;
  rx_stored = refl;
  tx_stored = refl;
  running = refl;
  both_live = refl;
}

stop_works : failed (stop_hfp working in_call two_opens).0 ≡ false
unfolding stop_hfp
stop_works = refl

stop_hfp_lem_example :
    let (r, b', t') = stop_hfp working in_call two_opens in
    (live working t' ≡ [])
    × (b'.rx_stream_handle ≡ none)
    × (b'.tx_stream_handle ≡ none)
    × (b'.is_running ≡ false)
    × (safe working t' ≡ safe working two_opens)
stop_hfp_lem_example = stop_hfp_lem working in_call two_opens [] call_started_again stop_works
