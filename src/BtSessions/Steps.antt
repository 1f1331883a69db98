-- ===== src/BtSessions/Steps.antt =====
-- The Bluetooth sessions under any sequence of the clients' requests.
use mathlib.Core.Path.{ap, subst}
use audioreach_pulseaudio_pl.Pal.{History, Pal}
use audioreach_pulseaudio_pl.Loopback.{LoopbackConfig}
use audioreach_pulseaudio_pl.BtSessions.Counted.{IsConsistent}
use audioreach_pulseaudio_pl.BtSessions.{
  Module, bt_connect, bt_disconnect, connection_lost, release_sco, release_sink, drop_all, lost_sco,
  lost_sink,
}
use audioreach_pulseaudio_pl.Base.{
  Bool, List, Option, String, [], arith, inl, length, none, refl, some, ℕ, ◌≡◌, ◌∷◌, ◌∙◌, ◌-◌,
}
use audioreach_pulseaudio_pl.BtSessions.Keeps.{Keeps, bt_connect-Keeps, bt_disconnect-Keeps}

drop_all-length : (rows : List (String × ℕ)) → drop_all rows (length rows) ≡ 0
drop_all-length [] = refl
drop_all-length (row ∷ rows) =
    let e : length (row ∷ rows) - 1 ≡ length rows = omega arith in
    ap (drop_all rows) e ∙ drop_all-length rows

abbrev LostKeeps : Option (Module × History) → Type 0
LostKeeps none = Unit {0}
LostKeeps (some (m, t)) = IsConsistent m

-- The module still counts its sessions.
abbrev Counts : Option (Module × History) → Type 0
Counts none = Unit {0}
Counts (some (m, t)) = m.session_count ≡ length m.sessions

release_sink-Counts :
    (p : Pal) (conf : Option LoopbackConfig) (m : Module) (t : History)
    → m.session_count ≡ length m.sessions
    → Counts (release_sink p conf m t)
release_sink-Counts p conf m t v = ground arith

release_sco-Counts :
    (p : Pal) (m : Module) (t : History)
    → m.session_count ≡ length m.sessions
    → Counts (release_sco p m t)
release_sco-Counts p m t v = ground arith

lost_sco-LostKeeps : (o : Option (Module × History)) → Counts o → LostKeeps (lost_sco o)
lost_sco-LostKeeps none c = tt
lost_sco-LostKeeps (some (m, t)) c = record {
  counted = ap (drop_all m.sessions) c ∙ drop_all-length m.sessions;
  distinct = tt;
  sink_there = inl refl;
  sco_there = inl refl;
}

lost_sink-LostKeeps :
    (p : Pal) (o : Option (Module × History)) → Counts o → LostKeeps (lost_sink p o)
lost_sink-LostKeeps p none c = tt
lost_sink-LostKeeps p (some (m, t)) c =
    lost_sco-LostKeeps (release_sco p m t) (release_sco-Counts p m t c)

connection_lost-Keeps :
    (p : Pal) (m : Module) (t : History) → IsConsistent m → LostKeeps (connection_lost p m t)
unfolding connection_lost
connection_lost-Keeps p m t v =
    lost_sink-LostKeeps p (release_sink p m.bta2dp_conf m t)
      (release_sink-Counts p m.bta2dp_conf m t v.counted)

-- One request that has a result, or the loss of the connection.
pub data Step (p : Pal) (a b : ℕ) (adds : List ℕ → ℕ → Bool) (m : Module) (t : History)
    : Module → History → Type 0 where
  connects :
      (usecase : Option String) (ok : Bool) {m' : Module} {t' : History}
      → bt_connect p a b adds usecase m t ≡ some (ok, m', t')
      → Step p a b adds m t m' t'
  disconnects :
      (usecase : Option String) (ok : Bool) {m' : Module} {t' : History}
      → bt_disconnect p usecase m t ≡ some (ok, m', t')
      → Step p a b adds m t m' t'
  loses :
      {m' : Module} {t' : History}
      → connection_lost p m t ≡ some (m', t')
      → Step p a b adds m t m' t'

pub data Reach (p : Pal) (a b : ℕ) (adds : List ℕ → ℕ → Bool) (m : Module) (t : History)
    : Module → History → Type 0 where
  here : Reach p a b adds m t m t
  next :
      {m1 m2 : Module} {t1 t2 : History}
      → Reach p a b adds m t m1 t1
      → Step p a b adds m1 t1 m2 t2
      → Reach p a b adds m t m2 t2

Step-Keeps :
    (p : Pal) (a b : ℕ) (adds : List ℕ → ℕ → Bool) (m : Module) (t : History) {m' : Module}
    {t' : History}
    → Step p a b adds m t m' t'
    → IsConsistent m
    → IsConsistent m'
Step-Keeps p a b adds m t (connects usecase ok e) v =
    subst Keeps e (bt_connect-Keeps p a b adds usecase m t v)
Step-Keeps p a b adds m t (disconnects usecase ok e) v =
    subst Keeps e (bt_disconnect-Keeps p usecase m t v)
Step-Keeps p a b adds m t (loses e) v = subst LostKeeps e (connection_lost-Keeps p m t v)

-- From a consistent module, whatever PAL answers and whichever object paths are free, any sequence of
-- connections, disconnections and losses of the connection that have a result leaves it consistent:
-- the count is the number of the sessions, each name has one session at most, and each session has the
-- record that its methods read unasked.
pub Reach-IsConsistent :
    (p : Pal) (a b : ℕ) (adds : List ℕ → ℕ → Bool) (m : Module) (t : History) {m' : Module}
    {t' : History}
    → IsConsistent m
    → Reach p a b adds m t m' t'
    → IsConsistent m'
Reach-IsConsistent p a b adds m t v here = v
Reach-IsConsistent p a b adds m t v (next {m1 = m1} {t1 = t1} r step) =
    Step-Keeps p a b adds m1 t1 step (Reach-IsConsistent p a b adds m t v r)
