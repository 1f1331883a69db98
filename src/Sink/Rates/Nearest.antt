-- ===== src/Sink/Rates/Nearest.antt =====
-- `pa_pal_sink_find_nearest_supported_sample_rate` of pal-sink.c.
use audioreach_pulseaudio_pl.Sink.Rates.{
  find_nearest_supported_sample_rate, nearest_from, supported_sink_rates,
}
use audioreach_pulseaudio_pl.Base.{
  Bool, List, [], arith, ltb, mem, true, false, ℕ, ◌∷◌, ◌≡◌, ◌≤◌, ◌<◌, ◌⊎◌, if◌then◌else◌, inl,
  refl, Bool-cases, inr, ◌==◌,
}

-- Is every rate of the list over the wanted one, or at most the one that was found?
abbrev pub none_between : ℕ → ℕ → List ℕ → Bool
none_between found wanted [] = true
none_between found wanted (rate ∷ rates) =
    if ltb wanted rate
    then none_between found wanted rates
    else if ltb found rate
    then false
    else none_between found wanted rates

abbrev ascending_from : ℕ → List ℕ → Bool
ascending_from near [] = true
ascending_from near (rate ∷ rates) = if ltb near rate then ascending_from rate rates else false

ascending_weaken :
    (a b : ℕ) (rates : List ℕ)
    → a < b
    → ascending_from b rates ≡ true
    → ascending_from a rates ≡ true
ascending_weaken a b [] l h = refl
ascending_weaken a b (rate ∷ rates) l h = ground arith

none_between_self : (wanted : ℕ) (rates : List ℕ) → none_between wanted wanted rates ≡ true
none_between_self wanted [] = refl
none_between_self wanted (rate ∷ rates) = ground (arith, none_between_self wanted rates)

climb :
    (wanted near : ℕ) (rates : List ℕ)
    → near ≤ wanted
    → ascending_from near rates ≡ true
    → let found = nearest_from wanted near rates in
      (near ≤ found) × (found ≤ wanted) × (none_between found wanted rates ≡ true)
unfolding nearest_from
climb wanted near [] l h = (omega arith, l, refl)
climb wanted near (rate ∷ rates) l h = ground (
  arith,
  none_between_self wanted rates,
  climb wanted rate rates,
  climb wanted near rates,
  ascending_weaken near rate rates,
)

found-mem :
    (wanted near : ℕ) (rates : List ℕ)
    → let found = nearest_from wanted near rates in (found ≡ near) ⊎ (mem found rates ≡ true)
unfolding nearest_from
found-mem wanted near [] = inl refl
found-mem wanted near (rate ∷ rates) =
    ground (arith, found-mem wanted rate rates, found-mem wanted near rates)

below_all :
    (wanted near least : ℕ) (rates : List ℕ)
    → wanted ≤ least
    → ascending_from least rates ≡ true
    → nearest_from wanted near rates ≡ near
unfolding nearest_from
below_all wanted near least [] l h = refl
below_all wanted near least (rate ∷ rates) l h = ground (arith, below_all wanted near rate rates)

abbrev higher_rates : List ℕ
higher_rates =
    11025 ∷ 16000 ∷ 22050 ∷ 32000 ∷ 44100 ∷ 48000 ∷ 88200 ∷ 96000 ∷ 176400 ∷ 192000 ∷ 352800
    ∷ 384000 ∷ []

first_step :
    (wanted : ℕ)
    → 8000 ≤ wanted
    → nearest_from wanted 48000 (8000 ∷ higher_rates) ≡ nearest_from wanted 8000 higher_rates
unfolding nearest_from
first_step wanted l = elim (Bool-cases (wanted == 8000)) [
  | inl e ↦ rw e (rw (below_all wanted 8000 8000 higher_rates (ground arith) refl) (ground arith))
  | inr e ↦ let h : ltb 8000 wanted ≡ true = ground arith in rw (e, h)
]

-- What is found among the higher rates, with 8000 put before them.
found_above :
    (wanted found : ℕ)
    → 8000 ≤ wanted
    → (8000 ≤ found) × (found ≤ wanted) × (none_between found wanted higher_rates ≡ true)
    → (found ≡ 8000) ⊎ (mem found higher_rates ≡ true)
    → (mem found supported_sink_rates ≡ true)
      × (((wanted < 8000) × (found ≡ 48000))
          ⊎ ((8000 ≤ wanted)
              × (found ≤ wanted)
              × (none_between found wanted supported_sink_rates ≡ true)))
found_above wanted found h (l, u, n) m = (member m, inr (h, u, rw (e1, e2) n))
  where
    e1 : ltb wanted 8000 ≡ false
    e1 = ground arith

    e2 : ltb found 8000 ≡ false
    e2 = ground arith

    member :
        (found ≡ 8000) ⊎ (mem found higher_rates ≡ true) → mem found supported_sink_rates ≡ true
    member (inl e) = rw e
    member (inr e) = elim (Bool-cases (found == 8000)) [ inl q ↦ rw q | inr q ↦ rw q e ]

-- The rate that is found is a supported one. A wanted rate under 8000 gives 48000; any other gives
-- the greatest supported rate that is not over it.
pub find_nearest_supported_sample_rate_lem :
    (wanted : ℕ)
    → let found = find_nearest_supported_sample_rate wanted in
      (mem found supported_sink_rates ≡ true)
      × (((wanted < 8000) × (found ≡ 48000))
          ⊎ ((8000 ≤ wanted)
              × (found ≤ wanted)
              × (none_between found wanted supported_sink_rates ≡ true)))
unfolding find_nearest_supported_sample_rate
find_nearest_supported_sample_rate_lem wanted = elim (Bool-cases (ltb wanted 8000)) [
  | inl e ↦
      let h : wanted < 8000 = ground arith in
      rw (below_all wanted 48000 7999 supported_sink_rates (omega arith) refl) (refl, inl (h, refl))
  | inr e ↦
      let h : 8000 ≤ wanted = ground arith in
      let k = climb wanted 8000 higher_rates h refl in
      rw (first_step wanted h) (
        found_above wanted (nearest_from wanted 8000 higher_rates) h k
          (found-mem wanted 8000 higher_rates))
]
