-- ===== src/Source/Announce.antt =====
-- What `pa_pal_source_set_port_cb` of pal-source.c tells PAL about the inputs that are plugged in.
use mathlib.Core.Path.{sym, ap}
use audioreach_pulseaudio_pl.Volume.{set_device_connection_state}
use audioreach_pulseaudio_pl.Pal.{Device, History, Pal}
use audioreach_pulseaudio_pl.Sink.{PortDeviceData}
use audioreach_pulseaudio_pl.Source.Ports.{
  Plug, connect_inputs, connect_plug, is_plug, plug_aux_digital, plug_hdmi, plug_headset, tell,
}
use audioreach_pulseaudio_pl.Base.{
  Bool, arith, false, if◌then◌else◌, length, not, pos, true, ◌&&◌, ◌+◌, ◌||◌, ◌≡◌, ℕ, ℤ, ◌∙◌,
  Bool-cases, inl, inr, refl,
}

-- Is the device one of the three inputs?
abbrev pub is_input : Device → Bool
is_input d = is_plug plug_headset d || (is_plug plug_aux_digital d || is_plug plug_hdmi d)

-- Has the connected flag of a port the value that a change to (or away from) the port gives it?
abbrev pub flagged : Bool → PortDeviceData → PortDeviceData
flagged state port = if is_input port.device then record port { is_connected = state } else port

abbrev pub needs_telling : Bool → PortDeviceData → Bool
needs_telling state port = is_input port.device && (if port.is_connected then not state else state)

-- What one block does to a port, and how often it tells PAL.
abbrev mark : Plug → Bool → PortDeviceData → PortDeviceData
mark plug state port =
    if is_plug plug port.device then record port { is_connected = state } else port

abbrev told : Plug → Bool → PortDeviceData → ℕ
told plug state port =
    if is_plug plug port.device && (if port.is_connected then not state else state) then 1 else 0

-- The two ports are not both the input of one block.
abbrev pub Apart : Device → Device → Type 0
Apart a b = (plug : Plug) → is_plug plug a ≡ true → is_plug plug b ≡ false

-- Is the mark of the port another one?
abbrev changes : Bool → PortDeviceData → Bool
changes state port = if port.is_connected then not state else state

length-tell :
    (p : Pal) (plug : Plug) (port : PortDeviceData) (state : Bool) (ret : ℤ) (t : History)
    → length (tell p plug port state ret t).2 ≡ (if changes state port then 1 else 0) + length t
unfolding set_device_connection_state
length-tell p plug port state ret t = elim (Bool-cases (changes state port)) [
  | inl e ↦ rw e (omega arith)
  | inr e ↦ rw e (omega arith)
]

port-tell :
    (p : Pal) (plug : Plug) (port : PortDeviceData) (state : Bool) (ret : ℤ) (t : History)
    → (tell p plug port state ret t).1 ≡ record port { is_connected = state }
unfolding set_device_connection_state
port-tell p plug port state ret t = elim (Bool-cases (changes state port)) [
  | inl e ↦ rw e refl
  | inr e ↦ rw e refl
]

connect_plug_lem :
    (p : Pal) (plug : Plug) (port active : PortDeviceData) (ret : ℤ) (t : History)
    → (is_plug plug port.device ≡ true → is_plug plug active.device ≡ false)
    → ((connect_plug p plug port active ret t).1 ≡ mark plug true port)
      × ((connect_plug p plug port active ret t).2 ≡ mark plug false active)
      × (length (connect_plug p plug port active ret t).3
          ≡ told plug true port + told plug false active + length t)
unfolding connect_plug
connect_plug_lem p plug port active ret t d = elim (Bool-cases (is_plug plug port.device)) [
  | inl e ↦
      let f = d e in
      rw (e, f)
        (port-tell p plug port true ret t, refl, omega (arith, length-tell p plug port true ret t))
  | inr e ↦ elim (Bool-cases (is_plug plug active.device)) [
    | inl f ↦
        rw (e, f)
          (
            refl,
            port-tell p plug active false ret t,
            omega (arith, length-tell p plug active false ret t),
          )
    | inr f ↦ rw (e, f) (refl, refl, omega arith)
  ]
]

connect_plug_silent :
    (p : Pal) (plug : Plug) (port active : PortDeviceData) (ret : ℤ) (t : History)
    → mark plug true port ≡ port
    → mark plug false active ≡ active
    → told plug true port ≡ 0
    → told plug false active ≡ 0
    → connect_plug p plug port active ret t ≡ (ret, port, active, t)
unfolding connect_plug set_device_connection_state
connect_plug_silent p plug port active ret t a b c d = ground arith

marks :
    (state : Bool) (port : PortDeviceData)
    → mark plug_hdmi state (mark plug_aux_digital state (mark plug_headset state port))
      ≡ flagged state port
marks state port = ground arith

counts :
    (state : Bool) (port : PortDeviceData)
    → told plug_headset state port
        + (told plug_aux_digital state (mark plug_headset state port)
            + told plug_hdmi state (mark plug_aux_digital state (mark plug_headset state port)))
      ≡ (if needs_telling state port then 1 else 0)
counts state port = ground arith

mark-device :
    (plug : Plug) (state : Bool) (port : PortDeviceData)
    → (mark plug state port).device ≡ port.device
mark-device plug state port = ground arith

-- A block leaves the devices as they are.
mark-Apart :
    (plug : Plug) (port active port' active' : PortDeviceData)
    → Apart port.device active.device
    → port' ≡ mark plug true port
    → active' ≡ mark plug false active
    → Apart port'.device active'.device
mark-Apart plug port active port' active' d a b q h =
    let e : port'.device ≡ port.device =
      ap (λ (x : PortDeviceData). x.device) a ∙ mark-device plug true port in
    let f : active'.device ≡ active.device =
      ap (λ (x : PortDeviceData). x.device) b ∙ mark-device plug false active in
    ap (is_plug q) f ∙ d q (ap (is_plug q) (sym e) ∙ h)

flagged_silent :
    (plug : Plug) (state : Bool) (port : PortDeviceData)
    → (mark plug state (flagged state port) ≡ flagged state port)
      × (told plug state (flagged state port) ≡ 0)
flagged_silent plug_headset state port = ground arith
flagged_silent plug_aux_digital state port = ground arith
flagged_silent plug_hdmi state port = ground arith

-- A change between two ports that are not both one of the inputs that are plugged in marks the new port
-- connected and the active one disconnected where they are such inputs, and leaves others as they
-- are; the number of calls of PAL is the number of these marks that were new.
pub connect_inputs_lem :
    (p : Pal) (port active : PortDeviceData) (t : History)
    → Apart port.device active.device
    → ((connect_inputs p port active t).1 ≡ flagged true port)
      × ((connect_inputs p port active t).2 ≡ flagged false active)
      × (length (connect_inputs p port active t).3
          ≡ (if needs_telling true port then 1 else 0)
            + (if needs_telling false active then 1 else 0)
            + length t)
unfolding connect_inputs
connect_inputs_lem p port active t d =
    let (r1, port1, active1, t1) = connect_plug p plug_headset port active (pos 0) t in
    let (r2, port2, active2, t2) = connect_plug p plug_aux_digital port1 active1 r1 t1 in
    let a = connect_plug_lem p plug_headset port active (pos 0) t (d plug_headset) in
    let d1 = mark-Apart plug_headset port active port1 active1 d a.0 a.1 in
    let b = connect_plug_lem p plug_aux_digital port1 active1 r1 t1 (d1 plug_aux_digital) in
    let d2 = mark-Apart plug_aux_digital port1 active1 port2 active2 d1 b.0 b.1 in
    let c = connect_plug_lem p plug_hdmi port2 active2 r2 t2 (d2 plug_hdmi) in
    let e = b.0 ∙ ap (mark plug_aux_digital true) a.0 in
    let f = b.1 ∙ ap (mark plug_aux_digital false) a.1 in
    (
      c.0 ∙ ap (mark plug_hdmi true) e ∙ marks true port,
      c.1 ∙ ap (mark plug_hdmi false) f ∙ marks false active,
      omega (
        arith,
        a.2,
        b.2,
        c.2,
        counts true port,
        counts false active,
        ap (told plug_aux_digital true) a.0,
        ap (told plug_aux_digital false) a.1,
        ap (told plug_hdmi true) e,
        ap (told plug_hdmi false) f,
      ),
    )

-- A change that is made again tells PAL nothing and changes no port.
pub connect_inputs_again :
    (p : Pal) (port active : PortDeviceData) (u : History)
    → connect_inputs p (flagged true port) (flagged false active) u
      ≡ (pos 0, flagged true port, flagged false active, u)
unfolding connect_inputs
connect_inputs_again p port active u =
    let s = λ (plug : Plug).
      connect_plug_silent p plug (flagged true port) (flagged false active) (pos 0) u
        (flagged_silent plug true port).0 (flagged_silent plug false active).0
        (flagged_silent plug true port).1 (flagged_silent plug false active).1 in
    rw (s plug_headset) (rw (s plug_aux_digital) (s plug_hdmi))
