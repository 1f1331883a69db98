-- ===== src/BtSessions/Collide.antt =====
-- The object path of a session that is connected again.
use text.Mathlib.Text.{◌==◌ as str_eq}
use text.Mathlib.TextEquality.{eq_iff}
use mathlib.Core.Path.{ap, subst}
use audioreach_pulseaudio_pl.Pal.{History, Pal}
use audioreach_pulseaudio_pl.BtSessions.{
  Module, add_session, bt_connect, bt_disconnect, check_valid_usecase, init_usecase, paths,
  remove_session, session_of, with_reply, release_usecase, dropped, drop_session,
}
use audioreach_pulseaudio_pl.Base.{
  Bool, Bool-cases, List, Option, String, [], arith, false, inl, inr, is_some, mem, none, refl,
  some, true, ℕ, ◌≡◌, ◌∷◌, ◌∙◌, ◌+◌, ◌-◌, if◌then◌else◌,
}

abbrev Connected : String → Module → Option (Bool × Module × History) → Type 0
Connected usecase m (some (true, m', t')) =
    (m'.sessions ≡ ((usecase, m.session_count + 1) ∷ m.sessions))
    × (m'.session_count ≡ m.session_count + 1)
Connected usecase m _ = Unit {0}

-- The table and its count, which a use case's record does not touch.
init_usecase-same :
    (p : Pal) (a b : ℕ) (usecase : String) (m : Module) (t : History)
    → ((init_usecase p a b usecase m t).1.sessions ≡ m.sessions)
      × ((init_usecase p a b usecase m t).1.session_count ≡ m.session_count)
init_usecase-same p a b usecase m t = ground arith

joined-Connected :
    (adds : List ℕ → ℕ → Bool) (usecase : String) (m : Module) (o : Bool × Module × History)
    → (o.1.sessions ≡ m.sessions) × (o.1.session_count ≡ m.session_count)
    → Connected usecase m
        (if o.0 then with_reply (add_session adds usecase o.1) o.2 else some (false, o.1, o.2))
joined-Connected adds usecase m (false, m', t) e = tt
joined-Connected adds usecase m (true, m', t) e =
    elim (Bool-cases (adds (paths m'.sessions) (m'.session_count + 1))) [
      | inl f ↦ rw f (
        ap (λ (r : ℕ × List (String × ℕ)). ((usecase, r.0 + 1) ∷ r.1)) (λ i. (e.1 i, e.0 i)),
        ap (λ n. n + 1) e.1,
      )
      | inr f ↦ rw f tt
    ]

bt_connect-Connected :
    (p : Pal) (a b : ℕ) (adds : List ℕ → ℕ → Bool) (usecase : String) (m : Module) (t : History)
    → Connected usecase m (bt_connect p a b adds (some usecase) m t)
unfolding bt_connect
bt_connect-Connected p a b adds usecase m t = elim (Bool-cases (check_valid_usecase usecase)) [
  | inr e ↦ rw e tt
  | inl e ↦ elim (Bool-cases (is_some (session_of usecase m.sessions))) [
    | inl f ↦ rw e (rw f tt)
    | inr f ↦
        let k =
          joined-Connected adds usecase m (init_usecase p a b usecase m t)
            (init_usecase-same p a b usecase m t) in
        rw e (rw f k)
  ]
]

abbrev Disconnected : String → Module → Option (Bool × Module × History) → Type 0
Disconnected usecase m (some (true, m', t')) =
    (m'.sessions ≡ remove_session usecase m.sessions) × (m'.session_count ≡ m.session_count - 1)
Disconnected usecase m _ = Unit {0}

abbrev Same : Module → Option (Module × History) → Type 0
Same m none = Unit {0}
Same m (some (m', t')) = (m'.sessions ≡ m.sessions) × (m'.session_count ≡ m.session_count)

release_usecase-Same :
    (p : Pal) (usecase : String) (m : Module) (t : History) → Same m (release_usecase p usecase m t)
release_usecase-Same p usecase m t = ground arith

drop_session-Disconnected :
    (usecase : String) (o : Option ℕ) (m m' : Module) (t : History)
    → (m'.sessions ≡ m.sessions) × (m'.session_count ≡ m.session_count)
    → Disconnected usecase m
        (some ((drop_session usecase o m').0, (drop_session usecase o m').1, t))
drop_session-Disconnected usecase none m m' t e = tt
drop_session-Disconnected usecase (some n) m m' t e =
    (ap (remove_session usecase) e.0, ap (λ n. n - 1) e.1)

dropped-Disconnected :
    (usecase : String) (m : Module) (o : Option (Module × History))
    → Same m o
    → Disconnected usecase m (dropped usecase o)
dropped-Disconnected usecase m none e = tt
dropped-Disconnected usecase m (some (m', t)) e =
    drop_session-Disconnected usecase (session_of usecase m'.sessions) m m' t e

bt_disconnect-Disconnected :
    (p : Pal) (usecase : String) (m : Module) (t : History)
    → Disconnected usecase m (bt_disconnect p (some usecase) m t)
unfolding bt_disconnect
bt_disconnect-Disconnected p usecase m t = elim (Bool-cases (check_valid_usecase usecase)) [
  | inr e ↦ rw e tt
  | inl e ↦
      let k =
        dropped-Disconnected usecase m (release_usecase p usecase m t)
          (release_usecase-Same p usecase m t) in
      rw e k
]

-- Where the path is taken, a connection fails an assertion, if its record can be made.
taken_path :
    (p : Pal) (a b : ℕ) (adds : List ℕ → ℕ → Bool) (usecase : String) (m : Module) (t : History)
    → check_valid_usecase usecase ≡ true
    → session_of usecase m.sessions ≡ none
    → adds (paths m.sessions) (m.session_count + 1) ≡ false
    → (init_usecase p a b usecase m t).0 ≡ true
    → bt_connect p a b adds (some usecase) m t ≡ none
unfolding bt_connect
taken_path p a b adds usecase m t c n k i =
    let s = init_usecase-same p a b usecase m t in
    let j : adds (paths (init_usecase p a b usecase m t).1.sessions)
          ((init_usecase p a b usecase m t).1.session_count + 1)
        ≡ false =
      ap (λ (r : List (String × ℕ) × ℕ). adds (paths r.0) (r.1 + 1)) (λ i. (s.0 i, s.1 i)) ∙ k in
    let q : is_some (session_of usecase m.sessions) ≡ false = ap is_some n in
    rw c (rw q (rw i (rw j refl)))

removed_second :
    (u w : String) → str_eq w u ≡ false → remove_session u ((w, 2) ∷ (u, 1) ∷ []) ≡ ((w, 2) ∷ [])
removed_second u w d = let e : str_eq u u ≡ true = (eq_iff u u).1 refl in rw d (rw e refl)

-- With a table that refuses a path that is taken: a client connects one use case and then another, the
-- first is disconnected, and the first is connected again. Where its record can be made, the plugin
-- gives it the path of the other, and the assertion on the new interface fails.
pub reconnect_aborts :
    (p : Pal) (a b : ℕ) (adds : List ℕ → ℕ → Bool) (u w : String) (m m1 m2 m3 : Module)
    (t t1 t2 t3 : History)
    → ((rows : List ℕ) (n : ℕ) → mem n rows ≡ true → adds rows n ≡ false)
    → m.sessions ≡ []
    → m.session_count ≡ 0
    → check_valid_usecase u ≡ true
    → str_eq w u ≡ false
    → bt_connect p a b adds (some u) m t ≡ some (true, m1, t1)
    → bt_connect p a b adds (some w) m1 t1 ≡ some (true, m2, t2)
    → bt_disconnect p (some u) m2 t2 ≡ some (true, m3, t3)
    → (init_usecase p a b u m3 t3).0 ≡ true
    → bt_connect p a b adds (some u) m3 t3 ≡ none
reconnect_aborts p a b adds u w m m1 m2 m3 t t1 t2 t3 refuses e0 n0 c d q1 q2 q3 i =
    let k1 = subst (Connected u m) q1 (bt_connect-Connected p a b adds u m t) in
    let k2 = subst (Connected w m1) q2 (bt_connect-Connected p a b adds w m1 t1) in
    let k3 = subst (Disconnected u m2) q3 (bt_disconnect-Disconnected p u m2 t2) in
    let row : String → ℕ → List (String × ℕ) → List (String × ℕ) =
      λ name n rows. (name, n + 1) ∷ rows in
    let s1 : m1.sessions ≡ ((u, 1) ∷ []) = k1.0 ∙ (λ i. row u (n0 i) (e0 i)) in
    let c1 : m1.session_count ≡ 1 = k1.1 ∙ ap (λ n. n + 1) n0 in
    let s2 : m2.sessions ≡ ((w, 2) ∷ (u, 1) ∷ []) = k2.0 ∙ (λ i. row w (c1 i) (s1 i)) in
    let c2 : m2.session_count ≡ 2 = k2.1 ∙ ap (λ n. n + 1) c1 in
    let s3 : m3.sessions ≡ ((w, 2) ∷ []) = k3.0 ∙ ap (remove_session u) s2 ∙ removed_second u w d in
    let c3 : m3.session_count ≡ 1 = k3.1 ∙ ap (λ n. n - 1) c2 in
    taken_path p a b adds u m3 t3 c (ap (session_of u) s3 ∙ simp d refl)
      ((λ i. adds (paths (s3 i)) (c3 i + 1)) ∙ refuses (2 ∷ []) 2 refl) i
