-- ===== src/Channel/Layouts.antt =====
-- The layouts that `pa_pal_util_channel_map_init` lays out: which counts have one, and that PAL
-- takes each of them.
use audioreach_pulseaudio_pl.Channel.Convert.{channel_map_to_pal_known}
use audioreach_pulseaudio_pl.Pal.{ChInfo}
use audioreach_pulseaudio_pl.Base.{
  Bool, Bool-cases, Option, arith, false, if◌then◌else◌, inl, inr, is_some, none, not, refl, some,
  suc, true, zero, ℕ, ◌&&◌, ◌<◌, ◌==◌, ◌≡◌, ◌≤◌, Option-cases, ap, sym, ◌∙◌, ltb, ◌⊎◌,
}
use audioreach_pulseaudio_pl.Channel.{
  ChannelMap, channel_map_init, laid_out, channel_map_to_pal, pal_position, same_position,
  channels_valid,
}

abbrev all_below : ℕ → (ℕ → Bool) → Bool
all_below zero p = true
all_below (suc n) p = if p n then all_below n p else false

all_below_sound : (n : ℕ) (p : ℕ → Bool) (i : ℕ) → all_below n p ≡ true → i < n → p i ≡ true
all_below_sound zero p i h l = absurd (omega arith)
all_below_sound (suc n) p i h l = elim (Bool-cases (i == n)) [
  | inl e ↦ ground arith
  | inr e ↦ ground (arith, all_below_sound n p i)
]

abbrev has_entry : ChannelMap → ℕ → Bool
has_entry m i = is_some (pal_position (m.positions i))

-- No channel below the given one has its position.
abbrev is_new : ChannelMap → ℕ → Bool
is_new m i = all_below i (λ j. not (same_position (m.positions j) (m.positions i)))

-- The eight layouts, checked one by one.
abbrev checked : ℕ → Option ChannelMap → Bool
checked n none = false
checked n (some m) =
    if m.channels == n then all_below n (λ i. has_entry m i && is_new m i) else false

layouts_checked : (blank : ChannelMap) (n : ℕ) → 1 ≤ n → n ≤ 8 → checked n (laid_out blank n) ≡ true
unfolding laid_out pal_position
layouts_checked blank zero h l = absurd (omega arith)
layouts_checked blank (suc zero) h l = refl
layouts_checked blank (suc (suc zero)) h l = refl
layouts_checked blank (suc (suc (suc zero))) h l = refl
layouts_checked blank (suc (suc (suc (suc zero)))) h l = refl
layouts_checked blank (suc (suc (suc (suc (suc zero))))) h l = refl
layouts_checked blank (suc (suc (suc (suc (suc (suc zero)))))) h l = refl
layouts_checked blank (suc (suc (suc (suc (suc (suc (suc zero))))))) h l = refl
layouts_checked blank (suc (suc (suc (suc (suc (suc (suc (suc zero)))))))) h l = refl
layouts_checked blank (suc (suc (suc (suc (suc (suc (suc (suc (suc n))))))))) h l =
    absurd (omega arith)

-- What a layout promises: the count, positions that PAL knows, and no position twice.
pub record IsLayout (n : ℕ) (m : ChannelMap) : Type 0 where
  pub counted : m.channels ≡ n
  pub known : (i : ℕ) → i < n → is_some (pal_position (m.positions i)) ≡ true
  pub distinct : (i j : ℕ) → i < n → j < i → same_position (m.positions j) (m.positions i) ≡ false

checked_at :
    (n : ℕ) (m : ChannelMap) (i : ℕ)
    → checked n (some m) ≡ true
    → i < n
    → (has_entry m i && is_new m i) ≡ true
checked_at n m i h l = all_below_sound n (λ k. has_entry m k && is_new m k) i (ground arith) l

IsLayout-of_checked : (n : ℕ) (m : ChannelMap) → checked n (some m) ≡ true → IsLayout n m
IsLayout-of_checked n m h = record {
  counted = ground arith;
  known = λ i l. ground (arith, checked_at n m i h l);
  distinct = λ i j l k. apart i j k (ground (arith, checked_at n m i h l));
}
  where
    apart :
        (i j : ℕ)
        → j < i
        → is_new m i ≡ true
        → same_position (m.positions j) (m.positions i) ≡ false
    apart i j k new = ground (
      arith,
      all_below_sound i (λ q. not (same_position (m.positions q) (m.positions i))) j new k,
    )

IsLayout-of_count :
    (blank : ChannelMap) (n : ℕ)
    → 1 ≤ n
    → n ≤ 8
    → (m : ChannelMap) × (laid_out blank n ≡ some m)
      × IsLayout n m
      × ((info : ChInfo) → (channel_map_to_pal m info).0 ≡ true)
IsLayout-of_count blank n h l = elim (Option-cases (laid_out blank n)) [
  | inl e ↦ absurd (cc (layouts_checked blank n h l, ap (checked n) e))
  | inr (m, e) ↦
      let good : IsLayout n m =
        IsLayout-of_checked n m (sym (ap (checked n) e) ∙ layouts_checked blank n h l) in
      (
        m,
        e,
        good,
        λ info. channel_map_to_pal_known m info (λ i k. good.known i (rw (good.counted) at k)),
      )
]

no_layout : (blank : ChannelMap) (n : ℕ) → (n ≡ 0) ⊎ (8 < n) → laid_out blank n ≡ none
unfolding laid_out
no_layout blank n (inl e) = ground arith
no_layout blank n (inr h) = ground arith

-- For each count from 1 to 8 there is a layout of that many channels, with positions that are
-- pairwise distinct, and the conversion of it to PAL's positions succeeds whatever stood in the
-- target. For the counts from 9 to 32 the result is NULL. For any other count the assertion fails.
pub channel_map_init_lem :
    (blank : ChannelMap) (n : ℕ)
    → ((1 ≤ n)
        × (n ≤ 8)
        × ((m : ChannelMap) × (channel_map_init blank n ≡ some (some m))
            × IsLayout n m
            × ((info : ChInfo) → (channel_map_to_pal m info).0 ≡ true)))
      ⊎ ((8 < n) × (n ≤ 32) × (channel_map_init blank n ≡ some none))
      ⊎ (((n ≡ 0) ⊎ (32 < n)) × (channel_map_init blank n ≡ none))
unfolding channel_map_init
channel_map_init_lem blank zero = inr (inr (inl refl, refl))
channel_map_init_lem blank (suc n) = elim (Bool-cases (ltb n 8)) [
  | inl e ↦
      let h : suc n ≤ 8 = ground arith in
      let v : channels_valid (suc n) ≡ true = ground arith in
      let (m, q, good, pal) = IsLayout-of_count blank (suc n) (omega arith) h in
      inl (omega arith, h, (m, rw v (ap some q), good, pal))
  | inr e ↦
      let h : 8 < suc n = ground arith in
      elim (Bool-cases (ltb n 32)) [
        | inl f ↦
            let k : suc n ≤ 32 = ground arith in
            let v : channels_valid (suc n) ≡ true = ground arith in
            inr (inl (h, k, rw v (ap some (no_layout blank (suc n) (inr h)))))
        | inr f ↦
            let k : 32 < suc n = ground arith in
            let v : channels_valid (suc n) ≡ false = ground arith in inr (inr (inr k, rw v refl))
      ]
]
