-- ===== src/Detection/Tests.antt =====
-- The theorem on the detected configuration at a concrete report.
use audioreach_pulseaudio_pl.Detection.{JackOutConfig, SysNodeConfig, compress}
use audioreach_pulseaudio_pl.Formats.{encoding_any}
use audioreach_pulseaudio_pl.Channel.{ChannelMap, mono, invalid}
use audioreach_pulseaudio_pl.Sink.Rates.{s16le}
use audioreach_pulseaudio_pl.Base.{pos, ℕ}

abbrev blank : ChannelMap
blank = record { channels = 0; positions = λ i. invalid }

abbrev auto_map : ChannelMap → ℕ → ChannelMap
auto_map m n = record { channels = n; positions = λ i. mono }

abbrev four_times : SysNodeConfig
four_times = record {
  sample_rate = 192000;
  bitwidth = 16;
  channels = 2;
  layout = 0;
  channel_allocation = 0;
  mode = compress;
  preemph_status = pos 1;
}

abbrev unset : JackOutConfig
unset = record {
  encoding = encoding_any;
  rate = 0;
  format = s16le;
  ss_channels = 0;
  map = blank;
  preemph_status = pos 0;
}
