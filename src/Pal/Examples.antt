-- ===== src/Pal/Examples.antt =====
-- Concrete answers of the platform audio layer, of the machine's floats and of PulseAudio, for the
-- tests.
use audioreach_pulseaudio_pl.Pal.{
  ChInfo, Pal, PalCall, PalFormats, ch_fl, stream_set_buffer_size, stream_start, stream_stop,
  stream_write,
}
use audioreach_pulseaudio_pl.Base.{ℤ, pos, negsuc, true, length, if◌then◌else◌, ltb}
use audioreach_pulseaudio_pl.Volume.{Floats}

-- Every call succeeds; a stream's handle is the number of calls before its open.
abbrev pub working : Pal
working = record {
  rc = λ t c. pos 0;
  handle = λ t. length t;
  failed_handle = λ t h. h;
  allocates = λ t. true;
  key_in_array = λ key. key;
}

abbrev no_buffer_size : PalCall → ℤ
no_buffer_size (stream_set_buffer_size h a b) = negsuc 21
no_buffer_size _ = pos 0

abbrev pub refuses_buffer_size : Pal
refuses_buffer_size = record working { rc = λ t c. no_buffer_size c }

abbrev no_stop : PalCall → ℤ
no_stop (stream_stop h) = negsuc 0
no_stop _ = pos 0

abbrev pub refuses_stop : Pal
refuses_stop = record working { rc = λ t c. no_stop c }

abbrev no_start : PalCall → ℤ
no_start (stream_start h) = negsuc 0
no_start _ = pos 0

abbrev pub refuses_start : Pal
refuses_start = record working { rc = λ t c. no_start c }

-- A write takes four bytes at most.
abbrev four_at_most : PalCall → ℤ
four_at_most (stream_write h a b) = if ltb 4 b then pos 4 else pos b
four_at_most _ = pos 0

abbrev pub takes_four : Pal
takes_four = record working { rc = λ t c. four_at_most c }

abbrev pub some_floats : Floats
some_floats = record {
  zero_bits = 0;
  one_bits = 1;
  max_gain = 15;
  less = λ a b. ltb a b;
  over_max = λ a. a;
}

abbrev pub some_formats : PalFormats
some_formats = record {
  default_pcm = 1;
  pcm_s16_le = 1;
  pcm_s24_le = 2;
  pcm_s24_3le = 3;
  pcm_s32_le = 4;
  mp3 = 5;
  aac = 6;
  aac_adts = 7;
}

abbrev pub some_info : ChInfo
some_info = record { channels = 0; ch_map = λ i. ch_fl }
