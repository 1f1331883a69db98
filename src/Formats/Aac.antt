-- ===== src/Formats/Aac.antt =====
-- The format that a negotiated encoding gives.
use audioreach_pulseaudio_pl.Formats.{
  Encoding, SndDec, encoding_aac, encoding_mpeg, encoding_pcm, get_pal_format,
  is_supported_encoding, set_pal_metadata,
}
use audioreach_pulseaudio_pl.Pal.{PalFormats}
use audioreach_pulseaudio_pl.Base.{
  Bool-cases, String, arith, failed, inl, inr, some, true, ℕ, ℤ, ◌≡◌, ◌≢◌, ◌⊎◌, false, pos,
}
use text.Mathlib.Text.{◌==◌ as str_eq}
use text.Mathlib.TextEquality.{eq_iff}

-- The format of a supported encoding right after its metadata were set. For PCM and MPEG setting them
-- succeeds, changes nothing, and the format is the fixed one. For AAC setting them returns the code of the
-- reading of the property: where that failed the metadata are as before; where it did not, the format is
-- the one with ADTS headers exactly where the stream format reads "adts", and the raw one otherwise.
pub get_pal_format-set_pal_metadata :
    (formats : PalFormats) (code : ℤ) (text : String) (e : Encoding) (metadata : ℕ) (dec : SndDec)
    → is_supported_encoding e ≡ true
    → let (rc, metadata') = set_pal_metadata formats code text e metadata in
      let (format, dec') = get_pal_format formats metadata' e (some dec) in
      ((e ≡ encoding_aac) × (failed code ≡ true) × (rc ≡ code) × (metadata' ≡ metadata))
      ⊎ ((e ≡ encoding_pcm) × (rc ≡ pos 0) × (metadata' ≡ metadata) × (format ≡ formats.pcm_s16_le))
      ⊎ ((e ≡ encoding_mpeg) × (rc ≡ pos 0) × (metadata' ≡ metadata) × (format ≡ formats.mp3))
      ⊎ ((e ≡ encoding_aac)
          × (failed code ≡ false)
          × (rc ≡ code)
          × (text ≡ "adts")
          × (format ≡ formats.aac_adts))
      ⊎ ((e ≡ encoding_aac)
          × (failed code ≡ false)
          × (rc ≡ code)
          × (text ≢ "adts")
          × (format ≡ formats.aac))
unfolding set_pal_metadata get_pal_format
get_pal_format-set_pal_metadata formats code text e metadata dec h =
    elim (Bool-cases (str_eq text "adts")) [
      | inl q ↦ let adts : text ≡ "adts" = (eq_iff text "adts").0 q in ground arith
      | inr q ↦ let raw : text ≢ "adts" = λ n. cc (q, (eq_iff text "adts").1 n) in ground arith
    ]
