-- ===== src/Formats/Tests.antt =====
-- The theorem on formats at a concrete negotiation.
use audioreach_pulseaudio_pl.Formats.Aac.{get_pal_format-set_pal_metadata}
use audioreach_pulseaudio_pl.Formats.{
  SndDec, encoding_aac, encoding_mpeg, encoding_pcm, get_pal_format, set_pal_metadata,
}
use audioreach_pulseaudio_pl.Pal.Examples.{some_formats}
use audioreach_pulseaudio_pl.Base.{failed, pos, refl, some, true, String, ◌≡◌, ◌≢◌, ◌⊎◌, false}

abbrev decoder : SndDec
decoder = record { audio_obj_type = 2; pce_bits_size = 1 }

abbrev adts : String
adts = "adts"

get_pal_format_example :
    let (rc, metadata') = set_pal_metadata some_formats (pos 0) adts encoding_aac 0 in
    let (format, dec') = get_pal_format some_formats metadata' encoding_aac (some decoder) in
    ((encoding_aac ≡ encoding_aac) × (failed (pos 0) ≡ true) × (rc ≡ pos 0) × (metadata' ≡ 0))
    ⊎ ((encoding_aac ≡ encoding_pcm) × (rc ≡ pos 0) × (metadata' ≡ 0) × (format ≡ 1))
    ⊎ ((encoding_aac ≡ encoding_mpeg) × (rc ≡ pos 0) × (metadata' ≡ 0) × (format ≡ 5))
    ⊎ ((encoding_aac ≡ encoding_aac)
        × (failed (pos 0) ≡ false)
        × (rc ≡ pos 0)
        × (adts ≡ "adts")
        × (format ≡ 7))
    ⊎ ((encoding_aac ≡ encoding_aac)
        × (failed (pos 0) ≡ false)
        × (rc ≡ pos 0)
        × (adts ≢ "adts")
        × (format ≡ 6))
get_pal_format_example =
    get_pal_format-set_pal_metadata some_formats (pos 0) adts encoding_aac 0 decoder refl
