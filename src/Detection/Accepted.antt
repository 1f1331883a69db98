-- ===== src/Detection/Accepted.antt =====
-- Which reports of the kernel are accepted, and what the jack is configured to.
use audioreach_pulseaudio_pl.Detection.{
  InputMode, JackOutConfig, SysNodeConfig, pcm, compress, dsd, other_mode, is_dsd,
}
use audioreach_pulseaudio_pl.Base.{
  Bool, [], false, ltb, mem, succeeded, ℕ, ◌&&◌, ◌==◌, ◌∷◌, ◌≡◌, if◌then◌else◌, ◌/◌, ◌⊎◌, Option,
  none, some, true, ℤ,
}

-- The combinations of mode, layout and rate that a stream may have: PCM at the PCM rates, compressed
-- audio over two channels at the base rates and at four times 44100 or 48000, over eight channels at
-- the latter only, DSD at 44100 and twice that.
abbrev pub is_accepted : InputMode → ℕ → ℕ → Bool
is_accepted pcm layout rate =
    ltb layout 2 && mem rate (32000 ∷ 44100 ∷ 48000 ∷ 88200 ∷ 96000 ∷ 176400 ∷ 192000 ∷ [])
is_accepted compress layout rate =
    if layout == 0
    then mem rate (32000 ∷ 44100 ∷ 48000 ∷ 176400 ∷ 192000 ∷ [])
    else layout == 1 && mem rate (176400 ∷ 192000 ∷ [])
is_accepted dsd layout rate = ltb layout 2 && mem rate (44100 ∷ 88200 ∷ [])
is_accepted (other_mode n) layout rate = false

-- The rate that PulseAudio is told: a quarter of the transmission rate for fourfold compressed
-- audio over two channels, the transmission rate for anything else.
abbrev pub media_rate : InputMode → ℕ → ℕ → ℕ
media_rate compress layout rate = if (layout == 0) && ltb 48000 rate then rate / 4 else rate
media_rate mode layout rate = rate

-- DSD of a known layout with more channels than PulseAudio has fails an assertion.
abbrev pub aborts : SysNodeConfig → Bool
aborts sys = is_dsd sys.mode && (ltb sys.layout 2 && ltb 32 sys.channels)

-- What the conversion of a report comes to.
abbrev pub Converted : SysNodeConfig → Option (ℤ × SysNodeConfig × JackOutConfig) → Type 0
Converted sys none = aborts sys ≡ true
Converted sys (some (rc, sys', jack')) =
    (aborts sys ≡ false)
    × (succeeded rc ≡ is_accepted sys.mode sys.layout sys'.sample_rate)
    × ((succeeded rc ≡ false) ⊎ (jack'.rate ≡ media_rate sys.mode sys.layout sys'.sample_rate))
    × (jack'.ss_channels ≡ jack'.map.channels)
