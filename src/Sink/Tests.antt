-- ===== src/Sink/Tests.antt =====
-- The theorems on the sink at concrete answers of PAL.
use audioreach_pulseaudio_pl.Sink.{Sink, SinkStates, no_event, set_state, sink_start}
use audioreach_pulseaudio_pl.Pal.{
  Handle, History, MediaConfig, audio_output, deep_buffer, no_loopback, out_speaker, stream_write,
}
use audioreach_pulseaudio_pl.Base.{
  Bool, [], arith, false, inl, length, none, pos, refl, some, true, ℕ, ◌*◌, ◌+◌, ◌-◌, ◌<◌, ◌==◌,
  ◌∷◌, ◌≡◌,
}
use audioreach_pulseaudio_pl.Sink.Leak.{StartOutcome, sink_start_lem, starts, starts_leak}
use audioreach_pulseaudio_pl.Sink.Lifecycle.{IsValid}
use audioreach_pulseaudio_pl.Sink.Reach.{Reach-safe, here, next, change_state}
use audioreach_pulseaudio_pl.Sink.Write.Ranges.{write_chunk_ends, write_chunk_parts}
use audioreach_pulseaudio_pl.Sink.Write.Ends.{write_chunk_pcm, PcmEnd}
use audioreach_pulseaudio_pl.Sink.Write.{write_chunk, write_loop, WriteEnd}
use audioreach_pulseaudio_pl.Pal.Live.{live, safe}
use audioreach_pulseaudio_pl.Pal.Examples.{
  some_info, working, refuses_start, refuses_buffer_size, takes_four,
}
use audioreach_pulseaudio_pl.Source.Tests.{pulse, spec, stereo}
use audioreach_pulseaudio_pl.Sink.Reconfigure.{PaSink, reconfigure_sink}
use audioreach_pulseaudio_pl.Sink.Reconfigured.{SinkOutcome, reconfigure_sink-SinkOutcome}
use audioreach_pulseaudio_pl.Sink.Rates.{s32le}
use audioreach_pulseaudio_pl.Pal.Examples.{some_formats}

abbrev config : MediaConfig
config = record { sample_rate = 48000; bit_width = 16; aud_fmt_id = 1; ch_info = some_info }

abbrev closed_sink : Sink
closed_sink = record {
  stream_handle = none;
  stream_attributes = record {
    stream_type = deep_buffer;
    loopback_type = no_loopback;
    direction = audio_output;
    in_media_config = config;
    out_media_config = config;
  };
  pal_device = record { id = out_speaker; config = config; custom_key = "" };
  buffer_size = 1024;
  buffer_count = 4;
  bytes_written = 0;
  sess_time = 0;
  standby = true;
  compressed = false;
  dynamic_usecase = false;
  restart_in_progress = false;
  close_output = true;
  sink_event_id = no_event;
  pal_sink_opened = false;
}

sink_start_example :
    StartOutcome refuses_start closed_sink [] (sink_start refuses_start closed_sink [])
sink_start_example = sink_start_lem refuses_start closed_sink [] refl refl

starts_leak_example :
    (length (live refuses_buffer_size (starts 3 refuses_buffer_size closed_sink []).1) ≡ 3)
    × ((starts 3 refuses_buffer_size closed_sink []).0.pal_sink_opened ≡ false)
starts_leak_example =
    starts_leak 3 refuses_buffer_size closed_sink [] (λ a ds u. refl) (λ h a b u. refl) refl refl

-- Of the states, 0 is the initial one, 1 a running one, 2 suspended and 3 unlinked.
abbrev states : SinkStates
states = record {
  init = 0;
  suspended = 2;
  unlinked = 3;
  is_opened = λ n. n == 1;
  is_running = λ n. n == 1;
}

closed-IsValid : IsValid working closed_sink []
closed-IsValid = record {
  handle_live = inl refl;
  opened_stored = inl refl;
  started_opened = inl refl;
}

Reach-safe_example :
    let (r1, s1, t1) = set_state working states 0 1 closed_sink [] in
    let (r2, s2, t2) = set_state working states 1 2 s1 t1 in
    IsValid working s2 t2 × (safe working t2 ≡ true)
Reach-safe_example =
    Reach-safe working states closed_sink [] closed-IsValid
      (next (next here (change_state 0 1)) (change_state 1 2))

abbrev opened : History → Bool × Handle
opened t = (false, some 0)

write_chunk_pcm_example :
    (e : WriteEnd) × (write_chunk working opened false 10 0 1 [] ≡ some e)
    × PcmEnd working false (some 0) 10 0 [] e
write_chunk_pcm_example = write_chunk_pcm working opened 10 0 0 []

takes_some :
    (h a b r : ℕ) (u : History)
    → takes_four.rc u (stream_write (some h) a b) ≡ pos r
    → r < b
    → 0 < r
takes_some h a b r u e l = ground arith

write_chunk_ends_example : (e : WriteEnd) × (write_chunk takes_four opened true 10 0 11 [] ≡ some e)
write_chunk_ends_example = write_chunk_ends takes_four opened true 10 0 [] takes_some (omega arith)

write_chunk_parts_example :
    let second = stream_write (some 0) 4 6 ∷ stream_write (some 0) 0 10 ∷ [] in
    (write_chunk takes_four opened true 10 0 11 []
      ≡ write_loop takes_four opened true 10 0 9 12 2 second)
    × ((2 * 4 + 4) + (10 - 4 - 4) ≡ 10 + 4)
write_chunk_parts_example =
    write_chunk_parts takes_four opened 10 0 0 4 4 9 [] (λ u. refl) (omega arith) refl (omega arith)
      refl (omega arith)

abbrev suspended_sink : PaSink
suspended_sink = record {
  state = 2;
  thread_state = 2;
  sample_spec = record { rate = 48000; channels = 1; format = s32le };
  channel_map = stereo;
  reference_volume = record { channels = 1; values = λ i. 65536 };
  max_request = 1024;
  fixed_latency = 25000;
}

reconfigure_sink-SinkOutcome_example : SinkOutcome pulse 7 suspended_sink spec (
    reconfigure_sink working states some_formats pulse 7 4 7 spec suspended_sink none closed_sink
      [])
reconfigure_sink-SinkOutcome_example =
    reconfigure_sink-SinkOutcome working states some_formats pulse 7 4 7 spec suspended_sink none
      closed_sink [] refl refl
