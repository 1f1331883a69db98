-- ===== src/Channel.antt =====
-- The channel maps of modules/pa-pal-plugins/module-pal-card/src/pal-utils.c: the layouts by number
-- of channels (`pa_pal_util_channel_map_init`), the table from PulseAudio's positions to PAL's
-- (`pa_pal_channel_map`), the conversion by it (`pa_pal_channel_map_to_pal`), and the removal of
-- invalid positions (`pa_pal_map_remove_invalid_channels`).
--
-- The C arrays are functions of the index. `pa_channel_map_init`, of PulseAudio, resets a map to a
-- fixed value, which is the parameter `blank`.
pub mod Convert
pub mod Layouts
pub mod Remove
mod Tests
use audioreach_pulseaudio_pl.Pal.{
  PalChannel, ChInfo, ch_ms, ch_fl, ch_fr, ch_c, ch_ls, ch_rs, ch_lfe, ch_rc, ch_lb, ch_rb, ch_flc,
  ch_frc, ch_rlc, ch_rrc, ch_sl, ch_sr, ch_tbc, ch_tbl, ch_tbr, ch_tc, ch_tfc, ch_tfl, ch_tfr,
  ch_ts,
}
use audioreach_pulseaudio_pl.Base.{
  ℕ, zero, suc, ◌+◌, Bool, List, Option, update, ◌==◌, find_row, true, ◌%◌, ◌∷◌, if◌then◌else◌,
  some, none, false, [], ltb, ◌&&◌, get_or,
}

-- The constants PA_CHANNEL_POSITION_* that the plugin names, and the others by a number.
pub data Position : Type 0 where
  invalid mono front_left front_right front_center rear_center rear_left rear_right lfe : Position
  front_left_of_center front_right_of_center side_left side_right aux0 aux1 : Position
  top_center top_front_left top_front_right top_front_center : Position
  top_rear_left top_rear_right top_rear_center : Position
  other_position : ℕ → Position

abbrev position_code : Position → ℕ
position_code invalid = 0
position_code mono = 1
position_code front_left = 2
position_code front_right = 3
position_code front_center = 4
position_code rear_center = 5
position_code rear_left = 6
position_code rear_right = 7
position_code lfe = 8
position_code front_left_of_center = 9
position_code front_right_of_center = 10
position_code side_left = 11
position_code side_right = 12
position_code aux0 = 13
position_code aux1 = 14
position_code top_center = 15
position_code top_front_left = 16
position_code top_front_right = 17
position_code top_front_center = 18
position_code top_rear_left = 19
position_code top_rear_right = 20
position_code top_rear_center = 21
position_code (other_position n) = 22 + n

-- `==` of two positions
abbrev pub same_position : Position → Position → Bool
same_position a b = position_code a == position_code b

-- `pa_channel_map`
pub record ChannelMap : Type 0 where
  pub channels : ℕ
  pub positions : ℕ → Position

-- The table `pa_pal_channel_map`.
abbrev pub pa_pal_channel_map : List (Position × PalChannel)
pa_pal_channel_map =
    (mono, ch_ms)
    ∷ (front_left, ch_fl)
    ∷ (front_right, ch_fr)
    ∷ (front_center, ch_c)
    ∷ (side_left, ch_ls)
    ∷ (side_right, ch_rs)
    ∷ (lfe, ch_lfe)
    ∷ (rear_center, ch_rc)
    ∷ (rear_left, ch_lb)
    ∷ (rear_right, ch_rb)
    ∷ (top_center, ch_ts)
    ∷ (top_front_center, ch_tfc)
    ∷ (front_left_of_center, ch_flc)
    ∷ (front_right_of_center, ch_frc)
    ∷ (side_left, ch_sl)
    ∷ (side_right, ch_sr)
    ∷ (top_front_left, ch_tfl)
    ∷ (top_front_right, ch_tfr)
    ∷ (top_center, ch_tc)
    ∷ (top_rear_left, ch_tbl)
    ∷ (top_rear_right, ch_tbr)
    ∷ (top_rear_center, ch_tbc)
    ∷ (aux0, ch_rlc)
    ∷ (aux1, ch_rrc)
    ∷ []

-- The inner loop of `pa_pal_channel_map_to_pal`: the first row of the table for a position.
unfoldable pub pal_position : Position → Option PalChannel
pal_position p = find_row (λ q. same_position p q) pa_pal_channel_map

-- The outer loop from index `i` with `k` rounds left. It returns at the first position that the
-- table lacks, and leaves what it has written.
unfoldable pub to_pal_from : ℕ → ℕ → (ℕ → Position) → (ℕ → PalChannel) → Bool × (ℕ → PalChannel)
to_pal_from zero i src dst = (true, dst)
to_pal_from (suc k) i src dst = elim (pal_position (src i)) [
  | none ↦ (false, dst)
  | some c ↦ to_pal_from k (i + 1) src (update dst i c)
]

unfoldable pub channel_map_to_pal : ChannelMap → ChInfo → Bool × ChInfo
unfolding to_pal_from pal_position
channel_map_to_pal pa_map pal_map =
    let (present, written) = to_pal_from pa_map.channels 0 pa_map.positions pal_map.ch_map in
    (present, record { channels = pa_map.channels; ch_map = written })

abbrev set_position : ℕ → Position → ChannelMap → ChannelMap
set_position i p m = record m { positions = update m.positions i p }

-- The cases of the switch that others fall through to.
abbrev front_pair : ChannelMap → ChannelMap
front_pair m = set_position 1 front_right (set_position 0 front_left m)

abbrev front_three : ChannelMap → ChannelMap
front_three m = set_position 2 front_center (front_pair m)

abbrev six_channels : ChannelMap → ChannelMap
six_channels m =
    set_position 5 side_right (set_position 4 side_left (set_position 3 lfe (front_three m)))

-- The reset, the count, which is stored as a `uint8_t`, and the switch; `none` is NULL.
unfoldable pub laid_out : ChannelMap → ℕ → Option ChannelMap
laid_out blank n =
    let m = record blank { channels = n % 256 } in
    if n == 1
    then some (set_position 0 mono m)
    else if n == 7
    then some (six_channels (set_position 6 rear_center m))
    else if n == 6
    then some (six_channels m)
    else if n == 5
    then some (
        front_pair
          (set_position 4 side_right (set_position 3 side_left (set_position 2 front_center m))))
    else if n == 2
    then some (front_pair m)
    else if n == 8
    then some (
        front_three (
          set_position 7 rear_right (
            set_position 6 rear_left
              (set_position 5 side_right (set_position 4 side_left (set_position 3 lfe m))))))
    else if n == 3
    then some (front_three m)
    else if n == 4
    then some (set_position 3 side_right (set_position 2 side_left (front_pair m)))
    else none

-- `pa_channels_valid`, of PulseAudio: 1 to PA_CHANNELS_MAX, 32.
abbrev pub channels_valid : ℕ → Bool
channels_valid n = ltb 0 n && ltb n 33

-- The outer `none` is the assertion that fails.
unfoldable pub channel_map_init : ChannelMap → ℕ → Option (Option ChannelMap)
channel_map_init blank n = if channels_valid n then some (laid_out blank n) else none

-- The map that `pa_pal_util_channel_map_init` leaves; where it returns NULL, it has reset the map
-- and set its number of channels. `none` is its assertion that fails.
abbrev left_map : ChannelMap → ℕ → Option (Option ChannelMap) → Option ChannelMap
left_map blank n none = none
left_map blank n (some m) = some (get_or m (record blank { channels = n % 256 }))

abbrev pub util_map : ChannelMap → ℕ → Option ChannelMap
util_map blank n = left_map blank n (channel_map_init blank n)

-- The loop of `pa_pal_map_remove_invalid_channels` with `k` rounds left, reading at `i` and writing
-- at `j`; it returns the last `j` too.
unfoldable pub remove_from : ℕ → ℕ → ℕ → (ℕ → Position) → (ℕ → Position) → ℕ × (ℕ → Position)
remove_from zero i j src dst = (j, dst)
remove_from (suc k) i j src dst = elim (same_position (src i) invalid) [
  | true ↦ remove_from k (i + 1) j src dst
  | false ↦ remove_from k (i + 1) (j + 1) src (update dst j (src i))
]

-- `pa_map` is a local with no initial value: `before` is what its array holds. Eight is the size of
-- `pa_pal_be_channel_map`.
unfoldable pub map_remove_invalid_channels : (ℕ → Position) → ChannelMap → ChannelMap
unfolding remove_from
map_remove_invalid_channels before m = record {
  channels = m.channels;
  positions = (remove_from 8 0 0 m.positions before).1;
}
