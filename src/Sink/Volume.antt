-- ===== src/Sink/Volume.antt =====
-- The volume callbacks, `pa_pal_sink_set_volume_cb` of pal-sink.c and `pa_pal_source_set_volume_cb` of
-- pal-source.c.
--
-- A callback has no result where it asserts a handle that is not there. The control event that it
-- sets is reset before it returns.
use audioreach_pulseaudio_pl.Base.{
  Bool, List, Option, failed, if◌then◌else◌, none, not, replicate, some, zero, suc, ℕ, ℤ, ◌%◌, ◌*◌,
  ◌^◌,
}
use Prim.Native.Nat.{bit_or}
use audioreach_pulseaudio_pl.Pal.{Handle, History, Pal, PalChannel, call, stream_set_volume}
use audioreach_pulseaudio_pl.Sink.{Sink, no_event}
use audioreach_pulseaudio_pl.Source.{Source}
use audioreach_pulseaudio_pl.Source.Reconfigure.{CVolume, Pulse}

-- What the machine and PAL's header decide: the gain of the loudest channel, a float by its bits, and
-- the number of a channel position.
pub record Gains : Type 0 where
  pub gain : CVolume → ℕ
  pub position : PalChannel → ℕ

unfoldable pub or_positions : Gains → (ℕ → PalChannel) → ℕ → ℕ → ℕ → ℕ
or_positions g map i zero mask = mask
or_positions g map i (suc n) mask = or_positions g map (suc i) n (bit_or mask (g.position (map i)))

-- The mask of the channels' numbers, shifted by one as a `uint32_t`.
abbrev pub channel_mask : Gains → (ℕ → PalChannel) → ℕ → ℕ
channel_mask g map n = or_positions g map 0 n 1 * 2 % 2 ^ 32

-- Every channel gets one mask and one gain.
abbrev pub volume_pairs : Gains → (ℕ → PalChannel) → ℕ → CVolume → List (ℕ × ℕ)
volume_pairs g map n v = replicate n (channel_mask g map n, g.gain v)

-- PulseAudio's volume after the call of PAL.
abbrev pub applied_volume : Pulse → CVolume → ℤ → CVolume
applied_volume u v r = if failed r then v else u.set_all v.channels (u.rounded_max v) v

abbrev pub apply_sink_volume :
    Pal → Pulse → Gains → CVolume → Handle → Sink → History → Option (CVolume × Sink × History)
apply_sink_volume p u g v none s t = none
apply_sink_volume p u g v (some h) s t =
    let info = s.stream_attributes.out_media_config.ch_info in
    let pairs = volume_pairs g info.ch_map info.channels v in
    let (r, t') = call p (stream_set_volume (some h) pairs) t in
    if p.allocates t
    then some (applied_volume u v r, record s { sink_event_id = no_event }, t')
    else some (v, s, t)

unfoldable pub set_sink_volume :
    Pal → Pulse → Gains → Bool → CVolume → Sink → History → Option (CVolume × Sink × History)
set_sink_volume p u g is_running v s t =
    if not is_running then some (v, s, t) else apply_sink_volume p u g v s.stream_handle s t

-- The source counts the channels of its input, and takes their positions from the other direction.
abbrev pub apply_source_volume :
    Pal → Pulse → Gains → CVolume → Handle → Source → History → Option (CVolume × Source × History)
apply_source_volume p u g v none s t = none
apply_source_volume p u g v (some h) s t =
    let n = s.stream_attributes.in_media_config.ch_info.channels in
    let pairs = volume_pairs g s.stream_attributes.out_media_config.ch_info.ch_map n v in
    let (r, t') = call p (stream_set_volume (some h) pairs) t in
    if p.allocates t
    then some (applied_volume u v r, record s { source_event_id = no_event }, t')
    else some (v, s, t)

unfoldable pub set_source_volume :
    Pal → Pulse → Gains → Bool → CVolume → Source → History → Option (CVolume × Source × History)
set_source_volume p u g is_running v s t =
    if not is_running then some (v, s, t) else apply_source_volume p u g v s.stream_handle s t
