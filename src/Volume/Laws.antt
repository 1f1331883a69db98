-- ===== src/Volume/Laws.antt =====
-- What the two calls of pal-utils.c do to the streams.
use audioreach_pulseaudio_pl.Base.{ℕ, Bool, true, none, some, ◌≡◌, refl, arith}
use audioreach_pulseaudio_pl.Pal.{Pal, History, Handle, Device}
use audioreach_pulseaudio_pl.Pal.Live.{live, safe, holds}
use audioreach_pulseaudio_pl.Volume.{Floats, set_volume, set_device_connection_state}

pub live-set_volume :
    (p : Pal) (f : Floats) (h : Handle) (n v : ℕ) (t : History)
    → live p (set_volume p f h n v t).1 ≡ live p t
unfolding set_volume
live-set_volume p f none n v t = refl
live-set_volume p f (some h) n v t = ground arith

pub safe-set_volume :
    (p : Pal) (f : Floats) (h : Handle) (n v : ℕ) (t : History)
    → holds (live p t) h ≡ true
    → safe p (set_volume p f h n v t).1 ≡ safe p t
unfolding set_volume
safe-set_volume p f none n v t l = refl
safe-set_volume p f (some h) n v t l = ground arith

pub live-set_device_connection_state :
    (p : Pal) (d : Device) (b : Bool) (t : History)
    → live p (set_device_connection_state p d b t).1 ≡ live p t
unfolding set_device_connection_state
live-set_device_connection_state p d b t = refl

pub safe-set_device_connection_state :
    (p : Pal) (d : Device) (b : Bool) (t : History)
    → safe p (set_device_connection_state p d b t).1 ≡ safe p t
unfolding set_device_connection_state
safe-set_device_connection_state p d b t = refl
