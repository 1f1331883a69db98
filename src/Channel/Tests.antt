-- ===== src/Channel/Tests.antt =====
-- The theorems on channel maps at concrete maps.
use audioreach_pulseaudio_pl.Pal.{ChInfo}
use audioreach_pulseaudio_pl.Base.{
  false, if◌then◌else◌, length, none, some, true, ℕ, ◌<◌, ◌==◌, ◌≡◌, ◌≤◌, ◌⊎◌,
}
use audioreach_pulseaudio_pl.Channel.{
  ChannelMap, Position, channel_map_init, channel_map_to_pal, front_left, front_right, invalid,
  map_remove_invalid_channels, mono, pal_position,
}
use audioreach_pulseaudio_pl.Channel.Remove.{map_remove_invalid_channels_lem, valid_only, window}
use audioreach_pulseaudio_pl.Channel.Layouts.{channel_map_init_lem, IsLayout}
use audioreach_pulseaudio_pl.Channel.Convert.{channel_map_to_pal_lem}
use audioreach_pulseaudio_pl.Pal.Examples.{some_info}

abbrev stereo_positions : ℕ → Position
stereo_positions i = if i == 0 then front_left else if i == 2 then front_right else invalid

abbrev six : ℕ
six = 6

abbrev gappy : ChannelMap
gappy = record { channels = 3; positions = stereo_positions }

channel_map_to_pal_example :
    let (present, out) = channel_map_to_pal gappy some_info in
    (((present ≡ true)
        × ((i : ℕ) → i < 3 → pal_position (stereo_positions i) ≡ some (out.ch_map i)))
      ⊎ ((present ≡ false) × ((i : ℕ) × (i < 3) × (pal_position (stereo_positions i) ≡ none))))
    × (out.channels ≡ 3)
    × ((i : ℕ) → 3 ≤ i → out.ch_map i ≡ some_info.ch_map i)
channel_map_to_pal_example = channel_map_to_pal_lem gappy some_info

channel_map_init_example :
    ((1 ≤ 6)
      × (6 ≤ 8)
      × ((m : ChannelMap) × (channel_map_init gappy 6 ≡ some (some m))
          × IsLayout 6 m
          × ((info : ChInfo) → (channel_map_to_pal m info).0 ≡ true)))
    ⊎ ((8 < six) × (six ≤ 32) × (channel_map_init gappy 6 ≡ some none))
    ⊎ (((six ≡ 0) ⊎ (32 < six)) × (channel_map_init gappy 6 ≡ none))
channel_map_init_example = channel_map_init_lem gappy 6

map_remove_invalid_channels_example :
    let kept = valid_only (window 8 0 stereo_positions) in
    let out = map_remove_invalid_channels (λ i. mono) gappy in
    (window (length kept) 0 out.positions ≡ kept)
    × ((i : ℕ) → length kept ≤ i → out.positions i ≡ mono)
    × (out.channels ≡ 3)
map_remove_invalid_channels_example = map_remove_invalid_channels_lem (λ i. mono) gappy
