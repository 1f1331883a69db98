-- ===== src/Source/Tests.antt =====
-- The theorems on the source at concrete answers of PAL and of PulseAudio.
use audioreach_pulseaudio_pl.Source.Reconfigured.{Outcome, reconfigure-Outcome}
use mathlib.Core.Path.{ap}
use audioreach_pulseaudio_pl.Formats.{encoding_pcm, get_pal_format}
use audioreach_pulseaudio_pl.Source.Lifecycle.{IsValid, IsValidData}
use audioreach_pulseaudio_pl.Source.Reconfigure.{
  with_in_media, PaSource, Pulse, reconfigure, restart_pal_source, prepared_pal, requested_map,
  requested_spec,
}
use audioreach_pulseaudio_pl.Channel.{
  ChannelMap, channel_map_to_pal, front_left, pal_position, to_pal_from,
}
use audioreach_pulseaudio_pl.Source.Leak.{restart_leaks, start_leaks}
use audioreach_pulseaudio_pl.Source.Announce.{Apart, connect_inputs_lem, flagged}
use audioreach_pulseaudio_pl.Source.Steps.{
  Reach-safe_source, change_state, here, next, set_source_state_returns,
}
use audioreach_pulseaudio_pl.Pal.Live.{live, safe}
use audioreach_pulseaudio_pl.Sink.Rates.{SampleSpec, s16le, s32le}
use audioreach_pulseaudio_pl.Pal.Examples.{refuses_buffer_size, some_formats, some_info, working}
use audioreach_pulseaudio_pl.Source.Ports.{
  plug_aux_digital, plug_hdmi, plug_headset, connect_inputs,
}
use audioreach_pulseaudio_pl.Sink.{PortDeviceData, SinkStates, no_event}
use audioreach_pulseaudio_pl.Base.{
  [], false, inl, mem, none, pos, refl, some, true, ℤ, ◌==◌, ◌∷◌, ◌≡◌, length, ◌∙◌, negsuc,
}
use audioreach_pulseaudio_pl.Source.{
  Source, SourceData, freed, open_pal_source, present, set_source_state, source_start,
}
use audioreach_pulseaudio_pl.Pal.{
  History, MediaConfig, Pal, audio_input, deep_buffer, in_hdmi, in_speaker_mic, in_wired_headset,
  no_loopback, stream_open,
}

abbrev config : MediaConfig
config = record { sample_rate = 48000; bit_width = 16; aud_fmt_id = 1; ch_info = some_info }

abbrev fresh_source : Source
fresh_source = record {
  stream_handle = none;
  stream_attributes = record {
    stream_type = deep_buffer;
    loopback_type = no_loopback;
    direction = audio_input;
    in_media_config = config;
    out_media_config = config;
  };
  pal_device = record { id = in_speaker_mic; config = config; custom_key = "" };
  buffer_size = 1024;
  buffer_count = 4;
  standby = true;
  dynamic_usecase = false;
  source_event_id = no_event;
  pal_source_opened = false;
}

-- Of the states, 0 is the initial one, 1 a running one, 2 suspended and 3 unlinked.
abbrev states : SinkStates
states = record {
  init = 0;
  suspended = 2;
  unlinked = 3;
  is_opened = λ n. n == 1;
  is_running = λ n. n == 1;
}

closed-IsValid : (p : Pal) → IsValid p fresh_source []
closed-IsValid p = record {
  handle_live = inl refl;
  opened_stored = inl refl;
  started_opened = inl refl;
}

started :
    set_source_state working states 0 1 (present fresh_source) []
    ≡ some (source_start working fresh_source [])
unfolding set_source_state
started = refl

Reach-safe_source_example :
    let (r1, d1, t1) = source_start working fresh_source [] in
    IsValidData working d1 t1 × (safe working t1 ≡ true)
Reach-safe_source_example =
    Reach-safe_source working states (present fresh_source) [] (closed-IsValid working)
      (next here (change_state 0 1 (source_start working fresh_source []).0 started))

set_source_state_returns_example :
    (r : ℤ) × (d : SourceData) × (t' : History) × (set_source_state refuses_buffer_size states 0 1
        (present fresh_source)
        []
      ≡ some (r, d, t'))
    × IsValidData refuses_buffer_size d t'
set_source_state_returns_example =
    set_source_state_returns refuses_buffer_size states 0 1 fresh_source []
      (closed-IsValid refuses_buffer_size)

start_leaks_example :
    ((source_start refuses_buffer_size fresh_source []).0 ≡ negsuc 21)
    × ((source_start refuses_buffer_size fresh_source []).1 ≡ freed true)
    × (mem 0 (live refuses_buffer_size (source_start refuses_buffer_size fresh_source []).2) ≡ true)
start_leaks_example =
    start_leaks refuses_buffer_size states fresh_source [] refl refl refl refl here

-- The source that a first new format leaves.
abbrev idle_source : Source
idle_source = record fresh_source { stream_handle = some 0; pal_source_opened = true }

abbrev one_open : History
one_open = stream_open idle_source.stream_attributes (idle_source.pal_device ∷ []) ∷ []

abbrev pub spec : SampleSpec
spec = record { rate = 44100; channels = 2; format = s16le }

abbrev pub stereo : ChannelMap
stereo = record { channels = 2; positions = λ i. front_left }

abbrev rated_source : Source
rated_source =
    with_in_media
      (record config { sample_rate = 44100; ch_info = (channel_map_to_pal stereo some_info).1 })
      idle_source

reopened :
    restart_pal_source working some_formats 7 0 encoding_pcm spec stereo idle_source one_open
    ≡ some (open_pal_source working rated_source one_open)
unfolding restart_pal_source get_pal_format channel_map_to_pal to_pal_from pal_position
reopened = refl

opened_again : (open_pal_source working rated_source one_open).0 ≡ pos 0
unfolding open_pal_source
opened_again = refl

second_format :
    let (r, s', t') = open_pal_source working rated_source one_open in
    (s'.stream_handle ≡ some 1) × (mem 0 (live working t') ≡ true)
second_format =
    let (r, s', t') = open_pal_source working rated_source one_open in
    restart_leaks working some_formats 7 0 0 encoding_pcm spec stereo idle_source s' one_open t'
      refl refl refl (reopened ∙ ap (λ (c : ℤ). some (c, s', t')) opened_again)

abbrev headset : PortDeviceData
headset = record { device = in_wired_headset; is_connected = false; pal_devicepp_config = none }

abbrev hdmi : PortDeviceData
hdmi = record { device = in_hdmi; is_connected = true; pal_devicepp_config = none }

apart : Apart in_wired_headset in_hdmi
apart plug_headset h = refl
apart plug_aux_digital h = refl
apart plug_hdmi h = absurd (cc)

connect_inputs_lem_example :
    ((connect_inputs working headset hdmi []).1 ≡ flagged true headset)
    × ((connect_inputs working headset hdmi []).2 ≡ flagged false hdmi)
    × (length (connect_inputs working headset hdmi []).3 ≡ 2)
connect_inputs_lem_example = connect_inputs_lem working headset hdmi [] apart

abbrev pub pulse : Pulse
pulse = record {
  sample_size = λ f. 2;
  frame_align = λ n s. n;
  init_auto = λ n. stereo;
  rounded_max = λ v. 65536;
  set_all = λ n v c. record { channels = n; values = λ i. v };
  bytes_to_usec = λ n s. n;
}

abbrev suspended_source : PaSource
suspended_source = record {
  state = 2;
  sample_spec = record { rate = 48000; channels = 1; format = s32le };
  channel_map = stereo;
  reference_volume = record { channels = 1; values = λ i. 65536 };
  fixed_latency = 25000;
}

reconfigure-Outcome_example :
    let tmp = requested_spec 7 suspended_source spec in
    Outcome working 7 suspended_source spec []
      (restart_pal_source working some_formats 7 7 encoding_pcm tmp
        (requested_map pulse 7 suspended_source spec)
        (prepared_pal pulse 7 tmp fresh_source)
        [])
      (reconfigure working states some_formats pulse 7 7 spec suspended_source fresh_source [])
reconfigure-Outcome_example =
    reconfigure-Outcome working states some_formats pulse 7 7 spec suspended_source fresh_source []
      refl refl refl refl
