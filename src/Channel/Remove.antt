-- ===== src/Channel/Remove.antt =====
-- `pa_pal_map_remove_invalid_channels` of pal-utils.c against a filter on lists.
use audioreach_pulseaudio_pl.Base.{
  List, [], arith, if◌then◌else◌, length, refl, suc, update, zero, ℕ, ◌+◌, ◌<◌, ◌∷◌, ◌≡◌, ◌≤◌,
}
use audioreach_pulseaudio_pl.Channel.{
  ChannelMap, Position, invalid, map_remove_invalid_channels, remove_from, same_position,
}

-- The positions from `i` on, `k` of them.
abbrev pub window : ℕ → ℕ → (ℕ → Position) → List Position
window zero i src = []
window (suc k) i src = src i ∷ window k (i + 1) src

abbrev pub valid_only : List Position → List Position
valid_only [] = []
valid_only (p ∷ ps) = if same_position p invalid then valid_only ps else p ∷ valid_only ps

-- Writes go at or above `j`.
remove_from_below :
    (k i j : ℕ) (src dst : ℕ → Position) (n : ℕ) → n < j → (remove_from k i j src dst).1 n ≡ dst n
unfolding remove_from
remove_from_below zero i j src dst n h = refl
remove_from_below (suc k) i j src dst n h = ground (
  arith,
  remove_from_below k (i + 1) j src dst n,
  remove_from_below k (i + 1) (j + 1) src (update dst j (src i)) n,
)

remove_from_written :
    (k i j : ℕ) (src dst : ℕ → Position)
    → window (length (valid_only (window k i src))) j (remove_from k i j src dst).1
      ≡ valid_only (window k i src)
unfolding remove_from
remove_from_written zero i j src dst = refl
remove_from_written (suc k) i j src dst = ground (
  arith,
  remove_from_written k (i + 1) j src dst,
  remove_from_written k (i + 1) (j + 1) src (update dst j (src i)),
  remove_from_below k (i + 1) (j + 1) src (update dst j (src i)) j,
)

remove_from_above :
    (k i j : ℕ) (src dst : ℕ → Position) (n : ℕ)
    → j + length (valid_only (window k i src)) ≤ n
    → (remove_from k i j src dst).1 n ≡ dst n
unfolding remove_from
remove_from_above zero i j src dst n h = refl
remove_from_above (suc k) i j src dst n h = ground (
  arith,
  remove_from_above k (i + 1) j src dst n,
  remove_from_above k (i + 1) (j + 1) src (update dst j (src i)) n,
)

-- The new map begins with the valid ones among the first eight positions of the given map, in their
-- order; beyond these its array is never written, and its number of channels is the given map's,
-- also where positions were dropped.
pub map_remove_invalid_channels_lem :
    (before : ℕ → Position) (m : ChannelMap)
    → let kept = valid_only (window 8 0 m.positions) in
      let out = map_remove_invalid_channels before m in
      (window (length kept) 0 out.positions ≡ kept)
      × ((i : ℕ) → length kept ≤ i → out.positions i ≡ before i)
      × (out.channels ≡ m.channels)
unfolding map_remove_invalid_channels
map_remove_invalid_channels_lem before m = (
  remove_from_written 8 0 0 m.positions before,
  (λ i h. remove_from_above 8 0 0 m.positions before i (omega arith)),
  refl,
)
