-- ===== src/Volume.antt =====
-- modules/pa-pal-plugins/module-pal-card/src/pal-utils.c: `pa_pal_set_volume` and
-- `pa_pal_set_device_connection_state`, the two calls of PAL that the streams share.
pub mod Laws
use audioreach_pulseaudio_pl.Base.{
  ℕ, ℤ, pos, negsuc, Bool, true, false, List, ◌∷◌, Option, none, some, if◌then◌else◌, replicate,
  failed,
}
use audioreach_pulseaudio_pl.Pal.{
  Pal, History, Handle, Device, call, stream_set_volume, set_device_connection,
}

-- The C `float` arithmetic that the volume goes through. A float is the number that its bits spell;
-- what the operations do to it is the machine's, so they are parameters.
pub record Floats : Type 0 where
  pub zero_bits : ℕ
  pub one_bits : ℕ
  pub max_gain : ℕ
  pub less : ℕ → ℕ → Bool
  pub over_max : ℕ → ℕ

-- -EINVAL and -ENOMEM of errno.h
abbrev pub einval : ℤ
einval = negsuc 21

abbrev pub enomem : ℤ
enomem = negsuc 11

-- The gain that a volume of 0.0 to 15.0 stands for: under 0.0 it is 0.0, over 15.0 it is 1.0.
unfoldable pub gain_of : Floats → ℕ → ℕ
gain_of f value =
    if f.less value f.zero_bits
    then f.zero_bits
    else if f.less f.max_gain value
    then f.one_bits
    else f.over_max value

-- Each of the channels gets the mask 0x03 and the gain.
unfoldable pub set_volume : Pal → Floats → Handle → ℕ → ℕ → History → ℤ × History
unfolding gain_of
set_volume p f none num_channels value t = (einval, t)
set_volume p f (some h) num_channels value t =
    if p.allocates t
    then call p (stream_set_volume (some h) (replicate num_channels (3, gain_of f value))) t
    else (enomem, t)

unfoldable pub set_device_connection_state : Pal → Device → Bool → History → ℤ × History
set_device_connection_state p device connection_state t =
    call p (set_device_connection device connection_state) t
