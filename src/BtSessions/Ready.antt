-- ===== src/BtSessions/Ready.antt =====
-- The records of the use cases that a connection makes.
use text.Mathlib.Text.{◌==◌ as str_eq}
use text.Mathlib.TextEquality.{eq_iff}
use mathlib.Core.Path.{ap, subst}
use audioreach_pulseaudio_pl.A2dp.{init_btsink, Btsink}
use audioreach_pulseaudio_pl.Hfp.{init_btsco}
use audioreach_pulseaudio_pl.Loopback.{LoopbackConfig, PortConfig, Btsco}
use audioreach_pulseaudio_pl.Pal.{History, Pal}
use audioreach_pulseaudio_pl.BtSessions.Counted.{IsConsistent}
use audioreach_pulseaudio_pl.BtSessions.{
  Module, bt_a2dp_sink, bt_sco_usecase, init_a2dp, init_sco, init_usecase, session_of,
}
use audioreach_pulseaudio_pl.Base.{
  Bool, Bool-cases, Option, String, arith, failed, false, inl, inr, is_some, none, refl, some, true,
  ℕ, ◌≡◌, ◌⊎◌,
}

init_btsink-is_some :
    (p : Pal) (volume : ℕ) (out : Option Btsink) (conf : LoopbackConfig) (t : History)
    → failed (init_btsink p volume out conf t).0 ≡ false
    → is_some (init_btsink p volume out conf t).1 ≡ true
unfolding init_btsink
init_btsink-is_some p volume out conf t e = ground arith

init_btsco-is_some :
    (p : Pal) (volume : ℕ) (out : Option Btsco) (port_in port_out : Option PortConfig) (t : History)
    → failed (init_btsco p volume out port_in port_out t).0 ≡ false
    → is_some (init_btsco p volume out port_in port_out t).1 ≡ true
unfolding init_btsco
init_btsco-is_some p volume out (some port_in) (some port_out) t e = ground arith
init_btsco-is_some p volume out none port_out t e = absurd (cc)
init_btsco-is_some p volume out (some port_in) none t e = absurd (cc)

-- What the making of a record leaves: a consistent module with the same sessions, and the record
-- where it succeeds.
abbrev pub Ready : Module → (Module → Type 0) → Bool × Module × History → Type 0
Ready m There (ok, m', t') =
    IsConsistent m' × (m'.sessions ≡ m.sessions) × ((ok ≡ false) ⊎ There m')

init_a2dp-Ready :
    (p : Pal) (volume : ℕ) (conf : Option LoopbackConfig) (m : Module) (t : History)
    → IsConsistent m
    → session_of bt_a2dp_sink m.sessions ≡ none
    → Ready m (λ m'. is_some m'.btsink ≡ true) (init_a2dp p volume conf m t)
init_a2dp-Ready p volume none m t v e = (v, refl, inl refl)
init_a2dp-Ready p volume (some conf) m t v e = (
  record {
    counted = v.counted;
    distinct = v.distinct;
    sink_there = inl e;
    sco_there = v.sco_there;
  },
  refl,
  elim (Bool-cases (failed (init_btsink p volume m.btsink conf t).0)) [
    | inl f ↦ rw f (inl refl)
    | inr f ↦ rw f (inr (init_btsink-is_some p volume m.btsink conf t f))
  ],
)

init_sco-Ready :
    (p : Pal) (volume : ℕ) (rx tx : Option LoopbackConfig) (m : Module) (t : History)
    → IsConsistent m
    → session_of bt_sco_usecase m.sessions ≡ none
    → Ready m (λ m'. is_some m'.btsco ≡ true) (init_sco p volume rx tx m t)
init_sco-Ready p volume none tx m t v e = (v, refl, inl refl)
init_sco-Ready p volume (some rx) none m t v e = (v, refl, inl refl)
init_sco-Ready p volume (some rx) (some tx) m t v e = (
  record {
    counted = v.counted;
    distinct = v.distinct;
    sink_there = v.sink_there;
    sco_there = inl e;
  },
  refl,
  elim (Bool-cases (failed (init_btsco p volume m.btsco rx.in_port tx.out_port t).0)) [
    | inl f ↦ rw f (inl refl)
    | inr f ↦ rw f (inr (init_btsco-is_some p volume m.btsco rx.in_port tx.out_port t f))
  ],
)

-- The record that a session of this name reads.
abbrev pub Served : String → Module → Type 0
Served usecase m =
    ((str_eq usecase bt_a2dp_sink ≡ false) ⊎ (is_some m.btsink ≡ true))
    × ((str_eq usecase bt_sco_usecase ≡ false) ⊎ (is_some m.btsco ≡ true))

pub init_usecase-Ready :
    (p : Pal) (a b : ℕ) (usecase : String) (m : Module) (t : History)
    → IsConsistent m
    → session_of usecase m.sessions ≡ none
    → Ready m (Served usecase) (init_usecase p a b usecase m t)
init_usecase-Ready p a b usecase m t v e = elim (Bool-cases (str_eq usecase bt_a2dp_sink)) [
  | inl f ↦
      let q : usecase ≡ bt_a2dp_sink = (eq_iff usecase bt_a2dp_sink).0 f in
      let r =
        init_a2dp-Ready p a m.bta2dp_conf m t v (subst (λ x. session_of x m.sessions ≡ none) q e) in
      let n : str_eq usecase bt_sco_usecase ≡ false = ap (λ x. str_eq x bt_sco_usecase) q in
      rw f (r.0, r.1, elim r.2 [ inl k ↦ inl k | inr k ↦ inr (inr k, inl n) ])
  | inr f ↦ elim (Bool-cases (str_eq usecase bt_sco_usecase)) [
    | inl g ↦
        let q : usecase ≡ bt_sco_usecase = (eq_iff usecase bt_sco_usecase).0 g in
        let r =
          init_sco-Ready p b m.hfp_rx_conf m.hfp_tx_conf m t v
            (subst (λ x. session_of x m.sessions ≡ none) q e) in
        rw f (rw g (r.0, r.1, elim r.2 [ inl k ↦ inl k | inr k ↦ inr (inl refl, inr k) ]))
    | inr g ↦ rw f (rw g (v, refl, inl refl))
  ]
]
