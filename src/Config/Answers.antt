-- ===== src/Config/Answers.antt =====
-- What single handlers of pal-config-parser.c answer.
use text.Mathlib.TextEquality.{eq_iff}
use audioreach_pulseaudio_pl.Config.Table.{handlers, parse_line}
use audioreach_pulseaudio_pl.Config.Names.{
  add_usecase_ports, mem_name, parse_port_names, Links, usecase_ports, with_port,
}
use audioreach_pulseaudio_pl.Config.Map.{Every, Every-lookup, lookup, lookup-put, lookup-put_self}
use audioreach_pulseaudio_pl.Config.Entry.{
  after_prefix, edit_profile, edit_sink, edit_usecase_or_port, get_usecase,
}
use audioreach_pulseaudio_pl.Config.{ConfigData, Parser, Usecase, Port}
use audioreach_pulseaudio_pl.Config.Sections.{node_path_fields}
use audioreach_pulseaudio_pl.Base.{
  List, String, false, get_or, inl, inr, mem, none, refl, some, true, ◌≡◌, ◌⊎◌, Bool, Bool-cases,
  [], arith, is_some, ◌∙◌, ◌∷◌,
}
use audioreach_pulseaudio_pl.Config.Fields.{parse_default_sample_rate}
use audioreach_pulseaudio_pl.Sink.Rates.{supported_sink_rates}
use mathlib.Core.Path.{ap}
use text.Mathlib.Text.{◌==◌ as str_eq}

-- The default rate of a sink, whatever its section had before: the number read, or where the text is
-- none the rate of before, is stored first. The handler returns 0 exactly where this rate is a
-- supported one, and changes no other sink, source, port or profile.
pub parse_default_sample_rate_lem :
    (p : Parser) (section rvalue name : String) (c : ConfigData)
    → after_prefix "Sink " section ≡ some name
    → let u = get_usecase p name c.sinks in
      let rate = get_or (p.atou rvalue) u.default_spec.rate in
      let (ok, c') = parse_default_sample_rate p section rvalue c in
      (ok ≡ mem rate supported_sink_rates)
      × (lookup name c'.sinks
          ≡ some (record u { default_spec = record (u.default_spec) { rate = rate } }))
      × ((other : String)
          → str_eq name other ≡ false
          → lookup other c'.sinks ≡ lookup other c.sinks)
      × (c'.sources ≡ c.sources)
      × (c'.ports ≡ c.ports)
      × (c'.profiles ≡ c.profiles)
unfolding parse_default_sample_rate edit_usecase_or_port edit_sink
parse_default_sample_rate_lem p section rvalue name c e =
    let u = get_usecase p name c.sinks in
    let rate = get_or (p.atou rvalue) u.default_spec.rate in
    let u' : Usecase = record u { default_spec = record (u.default_spec) { rate = rate } } in
    rw e (
      refl,
      lookup-put_self name u' c.sinks,
      λ other h. rw (lookup-put name other u' c.sinks, h) refl,
      refl,
      refl,
      refl,
    )

abbrev FieldReachable : String → Type 0
FieldReachable keyword = (str_eq keyword "hdmi-tx-state" ≡ true) ⊎ (lookup keyword handlers ≡ none)

-- Of the keywords that the handler of node paths knows, the table has "hdmi-tx-state" alone: a line with
-- any other one reaches no handler.
pub node_paths_unreachable :
    (p : Parser) (keyword field section rvalue : String) (c : ConfigData)
    → lookup keyword node_path_fields ≡ some field
    → (str_eq keyword "hdmi-tx-state" ≡ true) ⊎ (parse_line p keyword section rvalue c ≡ none)
unfolding parse_line
node_paths_unreachable p keyword field section rvalue c e =
    elim (Every-lookup (λ k f. FieldReachable k) keyword field node_path_fields fields e) [
      | inl h ↦ inl h
      | inr h ↦ inr (rw h refl)
    ]
  where
    fields : Every (λ k f. FieldReachable k) node_path_fields
    fields = (
      inr refl,
      (
        inr refl,
        (
          inr refl,
          (
            inr refl,
            (
              inr refl,
              (
                inr refl,
                (
                  inr refl,
                  (
                    inr refl,
                    (
                      inr refl,
                      (
                        inr refl,
                        (
                          inr refl,
                          (
                            inr refl,
                            (
                              inr refl,
                              (
                                inr refl,
                                (inr refl, (inr refl, (inr refl, (inl refl, (inr refl, tt))))),
                              ),
                            ),
                          ),
                        ),
                      ),
                    ),
                  ),
                ),
              ),
            ),
          ),
        ),
      ),
    )

stops :
    (is_sink : Bool) (known : List (String × Port)) (word : String) (words : List String)
    (links : Links)
    → mem_name word words ≡ true
    → lookup word known ≡ none
    → (add_usecase_ports is_sink known words links).0 ≡ false
unfolding add_usecase_ports
stops is_sink known word [] links m n = absurd (cc)
stops is_sink known word (x ∷ words) links m n = elim (Bool-cases (is_some (lookup x known))) [
  | inr e ↦ rw e refl
  | inl e ↦ elim (Bool-cases (str_eq x word)) [
    | inl q ↦
        let f : is_some (lookup x known) ≡ false =
          ap (λ y. is_some (lookup y known)) ((eq_iff x word).0 q) ∙ ap is_some n in
        absurd (cc)
    | inr q ↦
        let h : mem_name word words ≡ true = ground arith in
        rw e (stops is_sink known word words (with_port is_sink x (lookup x known) links) h n)
  ]
]

-- A sink whose port names contain one that the configuration has no port for: the handler fails, and
-- the sink keeps, as `port_conf_string`, the list of words that the handler has freed.
pub port_names_refused :
    (p : Parser) (section rvalue name word : String) (words : List String) (c : ConfigData)
    → after_prefix "Profile " section ≡ none
    → after_prefix "Sink " section ≡ some name
    → p.split_spaces rvalue ≡ some words
    → mem_name word words ≡ true
    → lookup word c.ports ≡ none
    → ((parse_port_names p section rvalue c).0 ≡ false)
      × (u : Usecase) × (lookup name (parse_port_names p section rvalue c).1.sinks ≡ some u)
      × (u.port_conf_string ≡ some words)
unfolding parse_port_names edit_profile
port_names_refused p section rvalue name word words c a b d m n =
    let u = get_usecase p name c.sinks in
    let links : Links = (u.ports, u.profiles, c.profiles) in
    let u' = (usecase_ports true c.ports c.profiles (some words) u).1 in
    rw (a, b, d)
      (stops true c.ports word words links m n, u', lookup-put_self name u' c.sinks, refl)
