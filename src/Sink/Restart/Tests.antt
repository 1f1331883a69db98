-- ===== src/Sink/Restart/Tests.antt =====
-- The theorems on the restart at a concrete sink.
use audioreach_pulseaudio_pl.Formats.{encoding_pcm}
use audioreach_pulseaudio_pl.Sink.Rates.{SampleFormat, SampleSpec, s16le}
use audioreach_pulseaudio_pl.Sink.Restart.{restart_pal_sink}
use audioreach_pulseaudio_pl.Pal.Examples.{some_formats, some_info, working}
use audioreach_pulseaudio_pl.Pal.{
  History, MediaConfig, audio_output, deep_buffer, no_loopback, out_speaker, stream_open,
}
use audioreach_pulseaudio_pl.Sink.{Sink, SinkStates, no_event}
use audioreach_pulseaudio_pl.Base.{[], false, none, refl, some, true, ℕ, ◌==◌, ◌∷◌}
use audioreach_pulseaudio_pl.Channel.{ChannelMap, front_left}
use audioreach_pulseaudio_pl.Sink.Restart.Streams.{Restarted, restart_running, restart_suspended}

abbrev config : MediaConfig
config = record { sample_rate = 48000; bit_width = 16; aud_fmt_id = 1; ch_info = some_info }

abbrev closed_sink : Sink
closed_sink = record {
  stream_handle = none;
  stream_attributes = record {
    stream_type = deep_buffer;
    loopback_type = no_loopback;
    direction = audio_output;
    in_media_config = config;
    out_media_config = config;
  };
  pal_device = record { id = out_speaker; config = config; custom_key = "" };
  buffer_size = 1024;
  buffer_count = 4;
  bytes_written = 0;
  sess_time = 0;
  standby = true;
  compressed = false;
  dynamic_usecase = false;
  restart_in_progress = false;
  close_output = true;
  sink_event_id = no_event;
  pal_sink_opened = false;
}

-- Of the states, 0 is the initial one, 1 a running one, 2 suspended and 3 unlinked.
abbrev states : SinkStates
states = record {
  init = 0;
  suspended = 2;
  unlinked = 3;
  is_opened = λ n. n == 1;
  is_running = λ n. n == 1;
}

abbrev open_sink : Sink
open_sink = record closed_sink { stream_handle = some 0; pal_sink_opened = true; standby = false }

abbrev one_open : History
one_open = stream_open open_sink.stream_attributes (open_sink.pal_device ∷ []) ∷ []

abbrev spec : SampleSpec
spec = record { rate = 44100; channels = 2; format = s16le }

abbrev two_bytes : SampleFormat → ℕ
two_bytes format = 2

abbrev stereo : ChannelMap
stereo = record { channels = 2; positions = λ i. front_left }

restart_running_example : Restarted working [] (
    restart_pal_sink working states some_formats two_bytes 7 0 encoding_pcm spec stereo 1 none
      open_sink one_open)
restart_running_example =
    restart_running working states some_formats two_bytes 7 0 encoding_pcm spec stereo 1 none
      open_sink one_open 0 refl refl refl

restart_suspended_example : Restarted working (0 ∷ []) (
    restart_pal_sink working states some_formats two_bytes 7 0 encoding_pcm spec stereo 2 none
      open_sink one_open)
restart_suspended_example =
    restart_suspended working states some_formats two_bytes 7 0 encoding_pcm spec stereo 2 none
      open_sink one_open refl
