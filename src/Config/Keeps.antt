-- ===== src/Config/Keeps.antt =====
-- That the changes of one section of pal-config-parser.c keep what holds of the data.
use audioreach_pulseaudio_pl.Config.Formats.{among}
use audioreach_pulseaudio_pl.Sink.Rates.{supported_sink_rates}
use audioreach_pulseaudio_pl.Source.Rates.{is_supported_source_encoding, supported_source_rates}
use audioreach_pulseaudio_pl.Config.Entry.{
  Edit, edit_loopback_named, edit_port_named, edit_profile_named, edit_sink_named,
  edit_source_named, else_try, get_loopback, get_port, get_profile, get_usecase, or_fail,
}
use audioreach_pulseaudio_pl.Config.Map.{Every, Every-lookup, Every-put, Every-weaken, lookup, put}
use audioreach_pulseaudio_pl.Formats.{Encoding, is_supported_encoding}
use audioreach_pulseaudio_pl.Base.{
  Bool, List, Option, String, arith, get_or, inl, length, none, refl, some, suc, true, ℕ, ℤ, ◌+◌,
  ◌∙◌, ◌≡◌,
}
use audioreach_pulseaudio_pl.Config.{
  ConfigData, Loopback, Parser, Port, Profile, Usecase, new_loopback, new_port, new_profile,
  new_usecase,
}
use audioreach_pulseaudio_pl.Config.Invariant.{
  IsValid, LoopbackValid, Numbered, Numbered-put, PortEdit, PortValid, ProfileValid, SinkEdit,
  SourceEdit, UsecaseEdit, UsecaseValid, all_known, known-put, stored_id,
}
use mathlib.Core.Path.{ap}

-- The outcome of a branch, if it was taken, is valid.
abbrev pub Kept : Option (Bool × ConfigData) → Type 0
Kept none = Unit {0}
Kept (some (ok, c)) = IsValid c

module _ (p : Parser) (encodings : Encoding → Bool) (rates : ℤ → Bool)
    (ports : List (String × Port)) where
  -- The entry that a section finds or makes.
  pub found_valid :
      (name : String) (rows : List (String × Usecase)) (o : Option Usecase)
      → lookup name rows ≡ o
      → Every (UsecaseValid encodings rates ports) rows
      → UsecaseValid encodings rates ports name (get_or o (new_usecase p name (suc (length rows))))
  found_valid name rows none e h = (refl, (refl, refl, inl refl), refl)
  found_valid name rows (some u) e h =
      Every-lookup (UsecaseValid encodings rates ports) name u rows h e

  pub usecase-put :
      (f : Edit Usecase) (name : String) (rows : List (String × Usecase))
      → UsecaseEdit encodings rates f
      → Every (UsecaseValid encodings rates ports) rows
      → Every (UsecaseValid encodings rates ports) (put name (f (get_usecase p name rows)).1 rows)
  usecase-put f name rows e h =
      let u = get_usecase p name rows in
      let v = found_valid name rows (lookup name rows) refl h in
      Every-put (UsecaseValid encodings rates ports) name (f u).1 rows
        ((e u).0 ∙ v.0, (e u).3 v.1, ap (all_known ports) (e u).2 ∙ v.2) h

pub found_id :
    (p : Parser) (name : String) (n : ℕ) (o : Option Usecase)
    → (get_or o (new_usecase p name (suc n))).id ≡ stored_id (1 + n) o
found_id p name n none = omega arith
found_id p name n (some u) = refl

pub edited-Numbered :
    (p : Parser) (f : Edit Usecase) (name : String) (rows : List (String × Usecase))
    → ((u : Usecase) → (f u).1.id ≡ u.id)
    → Numbered 1 rows
    → Numbered 1 (put name (f (get_usecase p name rows)).1 rows)
edited-Numbered p f name rows e h =
    let u = get_usecase p name rows in
    Numbered-put 1 name (f u).1 rows (e u ∙ found_id p name (length rows) (lookup name rows)) h

pub edit_sink-Kept :
    (p : Parser) (f : Edit Usecase) (c : ConfigData) (o : Option String)
    → SinkEdit f
    → IsValid c
    → Kept (edit_sink_named p f c o)
edit_sink-Kept p f c none e v = tt
edit_sink-Kept p f c (some name) e v = record {
  sinks_valid =
      usecase-put p is_supported_encoding (among supported_sink_rates) c.ports f name c.sinks e
        v.sinks_valid;
  sources_valid = v.sources_valid;
  sinks_numbered = edited-Numbered p f name c.sinks (λ u. (e u).1) v.sinks_numbered;
  sources_numbered = v.sources_numbered;
  ports_valid = v.ports_valid;
  profiles_valid = v.profiles_valid;
  loopbacks_valid = v.loopbacks_valid;
}

pub edit_source-Kept :
    (p : Parser) (f : Edit Usecase) (c : ConfigData) (o : Option String)
    → SourceEdit f
    → IsValid c
    → Kept (edit_source_named p f c o)
edit_source-Kept p f c none e v = tt
edit_source-Kept p f c (some name) e v = record {
  sinks_valid = v.sinks_valid;
  sources_valid =
      usecase-put p is_supported_source_encoding (among supported_source_rates) c.ports f name
        c.sources e v.sources_valid;
  sinks_numbered = v.sinks_numbered;
  sources_numbered = edited-Numbered p f name c.sources (λ u. (e u).1) v.sources_numbered;
  ports_valid = v.ports_valid;
  profiles_valid = v.profiles_valid;
  loopbacks_valid = v.loopbacks_valid;
}

-- A port more, or a changed one, leaves the ports known that were.
module _ (name : String) (port : Port) (ports : List (String × Port)) where
  usecases_known :
      (encodings : Encoding → Bool) (rates : ℤ → Bool) (rows : List (String × Usecase))
      → Every (UsecaseValid encodings rates ports) rows
      → Every (UsecaseValid encodings rates (put name port ports)) rows
  usecases_known encodings rates rows h =
      Every-weaken (UsecaseValid encodings rates ports)
        (UsecaseValid encodings rates (put name port ports)) rows
        (λ k u v. (v.0, v.1, known-put name port ports u.ports v.2)) h

  profiles_known :
      (rows : List (String × Profile))
      → Every (ProfileValid ports) rows
      → Every (ProfileValid (put name port ports)) rows
  profiles_known rows h =
      Every-weaken (ProfileValid ports) (ProfileValid (put name port ports)) rows
        (λ k u v. (v.0, known-put name port ports u.ports v.1)) h

  loopbacks_known :
      (rows : List (String × Loopback))
      → Every (LoopbackValid ports) rows
      → Every (LoopbackValid (put name port ports)) rows
  loopbacks_known rows h =
      Every-weaken (LoopbackValid ports) (LoopbackValid (put name port ports)) rows
        (λ k u v. (
          v.0,
          known-put name port ports u.in_ports v.1,
          known-put name port ports u.out_ports v.2,
        ))
        h

found_port :
    (p : Parser) (name : String) (rows : List (String × Port)) (o : Option Port)
    → lookup name rows ≡ o
    → Every PortValid rows
    → PortValid name (get_or o (new_port p name))
found_port p name rows none e h = refl
found_port p name rows (some u) e h = Every-lookup PortValid name u rows h e

pub edit_port-Kept :
    (p : Parser) (f : Edit Port) (c : ConfigData) (o : Option String)
    → PortEdit f
    → IsValid c
    → Kept (edit_port_named p f c o)
edit_port-Kept p f c none e v = tt
edit_port-Kept p f c (some name) e v =
    let u = get_port p name c.ports in
    let w = (f u).1 in
    record {
      sinks_valid =
          usecases_known name w c.ports is_supported_encoding (among supported_sink_rates) c.sinks
            v.sinks_valid;
      sources_valid =
          usecases_known name w c.ports is_supported_source_encoding (among supported_source_rates)
            c.sources v.sources_valid;
      sinks_numbered = v.sinks_numbered;
      sources_numbered = v.sources_numbered;
      ports_valid =
          Every-put PortValid name w c.ports
            (e u ∙ found_port p name c.ports (lookup name c.ports) refl v.ports_valid)
            v.ports_valid;
      profiles_valid = profiles_known name w c.ports c.profiles v.profiles_valid;
      loopbacks_valid = loopbacks_known name w c.ports c.loopbacks v.loopbacks_valid;
    }

found_profile :
    (ports : List (String × Port)) (name : String) (rows : List (String × Profile))
    (o : Option Profile)
    → lookup name rows ≡ o
    → Every (ProfileValid ports) rows
    → ProfileValid ports name (get_or o (new_profile name))
found_profile ports name rows none e h = (refl, refl)
found_profile ports name rows (some u) e h = Every-lookup (ProfileValid ports) name u rows h e

found_loopback :
    (ports : List (String × Port)) (name : String) (rows : List (String × Loopback))
    (o : Option Loopback)
    → lookup name rows ≡ o
    → Every (LoopbackValid ports) rows
    → LoopbackValid ports name (get_or o (new_loopback name))
found_loopback ports name rows none e h = (refl, refl, refl)
found_loopback ports name rows (some u) e h = Every-lookup (LoopbackValid ports) name u rows h e

-- A change of a profile that leaves its name, and the ports known.
abbrev pub ProfileEdit : List (String × Port) → Edit Profile → Type 0
ProfileEdit ports f =
    (u : Profile)
    → ((f u).1.name ≡ u.name)
      × (all_known ports u.ports ≡ true → all_known ports (f u).1.ports ≡ true)

abbrev pub LoopbackEdit : List (String × Port) → Edit Loopback → Type 0
LoopbackEdit ports f =
    (u : Loopback)
    → ((f u).1.name ≡ u.name)
      × (all_known ports u.in_ports ≡ true
          → all_known ports u.out_ports ≡ true
          → (all_known ports (f u).1.in_ports ≡ true) × (all_known ports (f u).1.out_ports ≡ true))

pub edit_profile-Kept :
    (f : Edit Profile) (c : ConfigData) (o : Option String)
    → ProfileEdit c.ports f
    → IsValid c
    → Kept (edit_profile_named f c o)
edit_profile-Kept f c none e v = tt
edit_profile-Kept f c (some name) e v =
    let u = get_profile name c.profiles in
    let h = found_profile c.ports name c.profiles (lookup name c.profiles) refl v.profiles_valid in
    record {
      sinks_valid = v.sinks_valid;
      sources_valid = v.sources_valid;
      sinks_numbered = v.sinks_numbered;
      sources_numbered = v.sources_numbered;
      ports_valid = v.ports_valid;
      profiles_valid =
          Every-put (ProfileValid c.ports) name (f u).1 c.profiles ((e u).0 ∙ h.0, (e u).1 h.1)
            v.profiles_valid;
      loopbacks_valid = v.loopbacks_valid;
    }

pub edit_loopback-Kept :
    (f : Edit Loopback) (c : ConfigData) (o : Option String)
    → LoopbackEdit c.ports f
    → IsValid c
    → Kept (edit_loopback_named f c o)
edit_loopback-Kept f c none e v = tt
edit_loopback-Kept f c (some name) e v =
    let u = get_loopback name c.loopbacks in
    let h =
      found_loopback c.ports name c.loopbacks (lookup name c.loopbacks) refl v.loopbacks_valid in
    let k = (e u).1 h.1 h.2 in
    record {
      sinks_valid = v.sinks_valid;
      sources_valid = v.sources_valid;
      sinks_numbered = v.sinks_numbered;
      sources_numbered = v.sources_numbered;
      ports_valid = v.ports_valid;
      profiles_valid = v.profiles_valid;
      loopbacks_valid =
          Every-put (LoopbackValid c.ports) name (f u).1 c.loopbacks ((e u).0 ∙ h.0, k.0, k.1)
            v.loopbacks_valid;
    }

-- The next branch of a chain, and the last one.
pub else-Kept : (a b : Option (Bool × ConfigData)) → Kept a → Kept b → Kept (else_try a b)
else-Kept none b ha hb = hb
else-Kept (some (ok, c)) b ha hb = ha

pub or_fail-IsValid :
    (c : ConfigData) (o : Option (Bool × ConfigData)) → IsValid c → Kept o → IsValid (or_fail c o).1
or_fail-IsValid c none v h = v
or_fail-IsValid c (some (ok, c')) v h = h
