-- ===== src/BtSessions.antt =====
-- modules/pa-pal-plugins/module-pal-card/src/pal-loopback.c: the table of the Bluetooth sessions, which
-- `pa_pal_bt_connect` fills and `pa_pal_bt_disconnect` and `disconnection_filter_cb` empty.
--
-- A session is the number in its object path; the configurations that it copies are those of the
-- module. PulseAudio's table of interfaces is the parameter `adds`: whether it takes a path, of the
-- paths that the sessions have. A failed assertion, or a configuration that is read through NULL, has
-- no result. All clients are one connection here.
pub mod Counted
pub mod Ready
pub mod Keeps
pub mod Steps
pub mod Collide
mod Tests
use text.Mathlib.Text.{◌==◌ as str_eq}
use audioreach_pulseaudio_pl.A2dp.{Btsink, deinit_btsink, init_btsink}
use audioreach_pulseaudio_pl.Hfp.{deinit_btsco, init_btsco}
use audioreach_pulseaudio_pl.Loopback.{Btsco, LoopbackConfig}
use audioreach_pulseaudio_pl.Pal.{History, Pal}
use audioreach_pulseaudio_pl.Base.{
  Bool, List, Option, String, [], failed, false, if◌then◌else◌, is_some, none, not, some, true, ℕ,
  ◌+◌, ◌-◌, ◌&&◌, ◌==◌, ◌||◌, ◌∷◌,
}

-- `pa_pal_loopback_module_data_t` with the two globals; `filters` counts the filters that are set on
-- the connection.
pub record Module : Type 0 where
  pub btsink : Option Btsink
  pub btsco : Option Btsco
  pub bta2dp_conf : Option LoopbackConfig
  pub hfp_rx_conf : Option LoopbackConfig
  pub hfp_tx_conf : Option LoopbackConfig
  pub sessions : List (String × ℕ)
  pub session_count : ℕ
  pub filters : ℕ

abbrev pub bt_a2dp_sink : String
bt_a2dp_sink = "bta2dp"

abbrev pub bt_sco_usecase : String
bt_sco_usecase = "btsco"

abbrev pub check_valid_usecase : String → Bool
check_valid_usecase uc = str_eq uc bt_a2dp_sink || str_eq uc bt_sco_usecase

abbrev pub session_of : String → List (String × ℕ) → Option ℕ
session_of name [] = none
session_of name ((k, n) ∷ rows) = if str_eq k name then some n else session_of name rows

-- The table holds a name once.
abbrev pub remove_session : String → List (String × ℕ) → List (String × ℕ)
remove_session name [] = []
remove_session name ((k, n) ∷ rows) =
    if str_eq k name then rows else (k, n) ∷ remove_session name rows

abbrev pub paths : List (String × ℕ) → List ℕ
paths [] = []
paths ((k, n) ∷ rows) = n ∷ paths rows

abbrev pub init_a2dp : Pal → ℕ → Option LoopbackConfig → Module → History → Bool × Module × History
init_a2dp p volume none m t = (false, m, t)
init_a2dp p volume (some conf) m t =
    let (r, b, t') = init_btsink p volume m.btsink conf t in
    (not (failed r), record m { btsink = if failed r then none else b }, t')

abbrev pub init_sco :
    Pal
    → ℕ
    → Option LoopbackConfig
    → Option LoopbackConfig
    → Module
    → History
    → Bool × Module × History
init_sco p volume none tx m t = (false, m, t)
init_sco p volume (some rx) none m t = (false, m, t)
init_sco p volume (some rx) (some tx) m t =
    let (r, b, in_port, t') = init_btsco p volume m.btsco rx.in_port tx.out_port t in
    (
      not (failed r),
      record m {
        btsco = if failed r then none else b;
        hfp_rx_conf = some (record rx { in_port = in_port });
      },
      t',
    )

-- The record of the use case; `sink_volume` and `sco_volume` are the two default volumes.
abbrev pub init_usecase : Pal → ℕ → ℕ → String → Module → History → Bool × Module × History
init_usecase p sink_volume sco_volume usecase m t =
    if str_eq usecase bt_a2dp_sink
    then init_a2dp p sink_volume m.bta2dp_conf m t
    else if str_eq usecase bt_sco_usecase
    then init_sco p sco_volume m.hfp_rx_conf m.hfp_tx_conf m t
    else (false, m, t)

-- The filter, the object path, its interface and the row of the table.
abbrev pub add_session : (List ℕ → ℕ → Bool) → String → Module → Option Module
add_session adds usecase m =
    let n = m.session_count + 1 in
    if adds (paths m.sessions) n
    then some (record m {
      filters = if m.session_count == 0 then m.filters + 1 else m.filters;
      session_count = n;
      sessions = (usecase, n) ∷ m.sessions;
    })
    else none

abbrev with_reply : Option Module → History → Option (Bool × Module × History)
with_reply none t = none
with_reply (some m) t = some (true, m, t)

-- `none` for the use case is a message without one.
unfoldable pub bt_connect :
    Pal
    → ℕ
    → ℕ
    → (List ℕ → ℕ → Bool)
    → Option String
    → Module
    → History
    → Option (Bool × Module × History)
bt_connect p sink_volume sco_volume adds none m t = some (false, m, t)
bt_connect p sink_volume sco_volume adds (some usecase) m t =
    let (ok, m', t') = init_usecase p sink_volume sco_volume usecase m t in
    if not (check_valid_usecase usecase)
    then some (false, m, t)
    else if is_some (session_of usecase m.sessions)
    then some (false, m, t)
    else if ok
    then with_reply (add_session adds usecase m') t'
    else some (false, m', t')

-- `deinit_btsink` with the configuration of the module, where the record is there.
abbrev pub release_sink : Pal → Option LoopbackConfig → Module → History → Option (Module × History)
release_sink p conf m t = elim m.btsink [
  | none ↦ some (m, t)
  | some b ↦ elim conf [
    | none ↦ none
    | some c ↦ some (record m { btsink = none }, deinit_btsink p (some b) c t)
  ]
]

abbrev release_with :
    Pal
    → Btsco
    → Option LoopbackConfig
    → Option LoopbackConfig
    → Module
    → History
    → Option (Module × History)
release_with p b (some rx) (some tx) m t =
    some (record m { btsco = none }, deinit_btsco p (some b) rx.in_port tx.out_port t)
release_with p b _ _ m t = none

abbrev pub release_sco : Pal → Module → History → Option (Module × History)
release_sco p m t = elim m.btsco [
  | none ↦ some (m, t)
  | some b ↦ release_with p b m.hfp_rx_conf m.hfp_tx_conf m t
]

abbrev pub release_usecase : Pal → String → Module → History → Option (Module × History)
release_usecase p usecase m t =
    if str_eq usecase bt_a2dp_sink
    then release_sink p m.bta2dp_conf m t
    else if str_eq usecase bt_sco_usecase
    then release_sco p m t
    else some (m, t)

abbrev drop_session : String → Option ℕ → Module → Bool × Module
drop_session usecase none m = (false, m)
drop_session usecase (some n) m =
    let count = m.session_count - 1 in
    (
      true,
      record m {
        session_count = count;
        filters = if count == 0 then m.filters - 1 else m.filters;
        sessions = remove_session usecase m.sessions;
      },
    )

abbrev dropped : String → Option (Module × History) → Option (Bool × Module × History)
dropped usecase none = none
dropped usecase (some (m, t)) =
    let (ok, m') = drop_session usecase (session_of usecase m.sessions) m in some (ok, m', t)

unfoldable pub bt_disconnect :
    Pal → Option String → Module → History → Option (Bool × Module × History)
bt_disconnect p none m t = some (false, m, t)
bt_disconnect p (some usecase) m t =
    if check_valid_usecase usecase
    then dropped usecase (release_usecase p usecase m t)
    else some (false, m, t)

-- The loop of `disconnection_filter_cb` over the sessions.
abbrev drop_all : List (String × ℕ) → ℕ → ℕ
drop_all [] count = count
drop_all (row ∷ rows) count = drop_all rows (count - 1)

abbrev without_sessions : Module → Module
without_sessions m = record m { sessions = []; session_count = drop_all m.sessions m.session_count }

abbrev pub lost_sco : Option (Module × History) → Option (Module × History)
lost_sco none = none
lost_sco (some (m, t)) = some (without_sessions m, t)

abbrev pub lost_sink : Pal → Option (Module × History) → Option (Module × History)
lost_sink p none = none
lost_sink p (some (m, t)) = lost_sco (release_sco p m t)

-- `disconnection_filter_cb` on the signal that the connection is lost: the filter stays.
unfoldable pub connection_lost : Pal → Module → History → Option (Module × History)
connection_lost p m t = lost_sink p (release_sink p m.bta2dp_conf m t)
