-- ===== src/HdmiOut/Scan.antt =====
-- The fuel of the scan of pal-jack-hdmi-out.c.
use audioreach_pulseaudio_pl.HdmiOut.{Found, drop, scan, scan_round}
use audioreach_pulseaudio_pl.Base.{List, [], arith, length, refl, suc, zero, ℕ, ◌∷◌, ◌≡◌, ◌≤◌}

length-drop : (n : ℕ) (bytes : List ℕ) → length (drop n bytes) ≤ length bytes
length-drop zero bytes = omega arith
length-drop (suc n) [] = omega arith
length-drop (suc n) (b ∷ bytes) = omega (arith, length-drop n bytes)

-- A round leaves fewer bytes.
round_shorter :
    (b : ℕ) (bytes : List ℕ) (f : Found) → length (scan_round (b ∷ bytes) f).0 ≤ length bytes
unfolding scan_round
round_shorter b bytes f = ground (arith, length-drop 4 bytes, length-drop 2 bytes)

scan_nothing : (n : ℕ) (f : Found) → scan n [] f ≡ f
unfolding scan
scan_nothing zero f = refl
scan_nothing (suc n) f = refl

-- As much fuel as the message has bytes is enough: more changes nothing.
scan_more :
    (n m : ℕ) (bytes : List ℕ) (f : Found)
    → length bytes ≤ m
    → m ≤ n
    → scan n bytes f ≡ scan m bytes f
unfolding scan
scan_more n zero [] f l h = scan_nothing n f
scan_more n zero (b ∷ bytes) f l h = absurd (omega arith)
scan_more zero (suc m) bytes f l h = absurd (omega arith)
scan_more (suc n) (suc m) [] f l h = refl
scan_more (suc n) (suc m) (b ∷ bytes) f l h =
    let k : length (scan_round (b ∷ bytes) f).0 ≤ m = omega (arith, round_shorter b bytes f) in
    scan_more n m (scan_round (b ∷ bytes) f).0 (scan_round (b ∷ bytes) f).1 k (omega arith)
