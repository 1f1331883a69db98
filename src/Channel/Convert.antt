-- ===== src/Channel/Convert.antt =====
-- `pa_pal_channel_map_to_pal` of pal-utils.c, position by position.
use audioreach_pulseaudio_pl.Pal.{PalChannel, ChInfo, ch_ms}
use audioreach_pulseaudio_pl.Base.{
  Option-cases, arith, inl, inr, refl, suc, update, zero, ℕ, ◌+◌, ◌<◌, ◌∙◌, ◌≡◌, is_some, some,
  true, ◌≤◌, get_or, Bool-cases, ap, false, none, ◌⊎◌,
}
use audioreach_pulseaudio_pl.Channel.{
  Position, pal_position, to_pal_from, ChannelMap, channel_map_to_pal,
}

-- Below the index at which it starts, the loop writes nothing.
to_pal_from_below :
    (k i : ℕ) (src : ℕ → Position) (dst : ℕ → PalChannel) (j : ℕ)
    → j < i
    → (to_pal_from k i src dst).1 j ≡ dst j
unfolding to_pal_from
to_pal_from_below zero i src dst j h = refl
to_pal_from_below (suc k) i src dst j h = elim (Option-cases (pal_position (src i))) [
  | inl e ↦ rw (e, to_pal_from)
  | inr (c, e) ↦
      rw (e, to_pal_from)
        (to_pal_from_below k (i + 1) src (update dst i c) j (omega arith) ∙ ground arith)
]

-- Nor does it from its last index on.
to_pal_from_above :
    (k i : ℕ) (src : ℕ → Position) (dst : ℕ → PalChannel) (j : ℕ)
    → i + k ≤ j
    → (to_pal_from k i src dst).1 j ≡ dst j
unfolding to_pal_from
to_pal_from_above zero i src dst j h = refl
to_pal_from_above (suc k) i src dst j h = elim (Option-cases (pal_position (src i))) [
  | inl e ↦ rw (e, to_pal_from)
  | inr (c, e) ↦
      rw (e, to_pal_from)
        (to_pal_from_above k (i + 1) src (update dst i c) j (omega arith) ∙ ground arith)
]

-- A loop that ends with success has written the table's entry at each index that it visits.
to_pal_from_written :
    (k i : ℕ) (src : ℕ → Position) (dst : ℕ → PalChannel) (j : ℕ)
    → (to_pal_from k i src dst).0 ≡ true
    → i ≤ j
    → j < i + k
    → pal_position (src j) ≡ some ((to_pal_from k i src dst).1 j)
unfolding to_pal_from
to_pal_from_written zero i src dst j done h l = absurd (omega arith)
to_pal_from_written (suc k) i src dst j done h l = ground (
  arith,
  to_pal_from_below k (i + 1) src (update dst i (get_or (pal_position (src i)) ch_ms)) j,
  to_pal_from_written k (i + 1) src (update dst i (get_or (pal_position (src i)) ch_ms)) j,
)

-- A loop that ends without success stands at a position that the table lacks.
to_pal_from_stuck :
    (k i : ℕ) (src : ℕ → Position) (dst : ℕ → PalChannel)
    → (to_pal_from k i src dst).0 ≡ false
    → (j : ℕ) × (j < i + k) × (pal_position (src j) ≡ none)
unfolding to_pal_from
to_pal_from_stuck zero i src dst e = absurd (cc e)
to_pal_from_stuck (suc k) i src dst e = elim (Option-cases (pal_position (src i))) [
  | inl n ↦ (i, omega arith, n)
  | inr (c, s) ↦
      let (j, l, n) = to_pal_from_stuck k (i + 1) src (update dst i c) (rw (s, to_pal_from) at e) in
      (j, omega arith, n)
]

-- The conversion sets the number of channels and never writes beyond them. Either it returns true,
-- and each channel holds the table's entry for its position; or it returns false, and the position
-- of one of the channels is not in the table.
pub channel_map_to_pal_lem :
    (m : ChannelMap) (info : ChInfo)
    → let (present, out) = channel_map_to_pal m info in
      (((present ≡ true)
          × ((i : ℕ) → i < m.channels → pal_position (m.positions i) ≡ some (out.ch_map i)))
        ⊎ ((present ≡ false)
            × ((i : ℕ) × (i < m.channels) × (pal_position (m.positions i) ≡ none))))
      × (out.channels ≡ m.channels)
      × ((i : ℕ) → m.channels ≤ i → out.ch_map i ≡ info.ch_map i)
unfolding channel_map_to_pal
channel_map_to_pal_lem m info = (
  elim (Bool-cases (to_pal_from m.channels 0 m.positions info.ch_map).0) [
    | inl e ↦ inl (
      e,
      λ i h.
          to_pal_from_written m.channels 0 m.positions info.ch_map i e (omega arith) (omega arith),
    )
    | inr e ↦
        let (j, l, n) = to_pal_from_stuck m.channels 0 m.positions info.ch_map e in
        inr (e, (j, omega arith, n))
  ],
  refl,
  (λ i h. to_pal_from_above m.channels 0 m.positions info.ch_map i (omega arith)),
)

-- So the conversion of a map of known positions succeeds.
pub channel_map_to_pal_known :
    (m : ChannelMap) (info : ChInfo)
    → ((i : ℕ) → i < m.channels → is_some (pal_position (m.positions i)) ≡ true)
    → (channel_map_to_pal m info).0 ≡ true
channel_map_to_pal_known m info known = elim (channel_map_to_pal_lem m info).0 [
  | inl good ↦ good.0
  | inr bad ↦ absurd (cc (known bad.1.0 bad.1.1, ap is_some bad.1.2))
]
