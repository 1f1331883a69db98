-- ===== src/ExtJack.antt =====
-- modules/pa-pal-plugins/module-pal-card/src/pal-jack-external.c: the jacks whose state comes over
-- D-Bus: the connection, the start and stop of a stream, the parameters and the thread that hands
-- these on.
--
-- The arguments of a D-Bus message go in; a handler gives whether it replied without an error, and the
-- events that it fires. `strtok_r`, `pa_encoding_from_string`, `pa_parse_sample_format`,
-- `pa_channel_map_parse` and `pa_channel_map_init_auto` are parameters.
pub mod Thread
pub mod Requests
pub mod Served
mod Tests
use audioreach_pulseaudio_pl.Detection.{JackOutConfig}
use audioreach_pulseaudio_pl.HdmiOut.{Fired, JackEvent}
use audioreach_pulseaudio_pl.Sink.Rates.{SampleFormat, s16le}
use audioreach_pulseaudio_pl.Formats.{Encoding, encoding_pcm}
use audioreach_pulseaudio_pl.Volume.{einval}
use audioreach_pulseaudio_pl.Channel.{ChannelMap}
use audioreach_pulseaudio_pl.Base.{
  Bool, List, Option, String, [], false, find_row, if◌then◌else◌, none, pos, some, true, ℕ, ℤ, ◌∷◌,
}
use audioreach_pulseaudio_pl.Ports.{JackType, bta2dp_out}
use text.Mathlib.Text.{◌==◌ as str_eq}
use audioreach_pulseaudio_pl.HdmiOut.{
  Fired, JackEvent, jack_available, jack_unavailable, jack_config_update,
}

-- `jack_param_key_t`
pub data ParamKey : Type 0 where
  key_device_connection key_a2dp_suspend key_device_samplerate : ParamKey

abbrev pub jack_prmkey_names : List (String × ParamKey)
jack_prmkey_names =
    ("device_connection", key_device_connection)
    ∷ ("a2dp_suspend", key_a2dp_suspend)
    ∷ ("sample_rate", key_device_samplerate)
    ∷ []

-- None is -1.
unfoldable pub parse_keyidx : String → Option ParamKey
parse_keyidx keystr = find_row (λ name. str_eq keystr name) jack_prmkey_names

-- `jack_prm_kvpair_t`
pub record KvPair : Type 0 where
  pub key : ParamKey
  pub value : String

-- A token of `strtok_r` with "=", and the text that is left.
abbrev pub Tokens : Type 0
Tokens = String → Option (String × String)

abbrev value_of : ParamKey → Option (String × String) → KvPair → ℤ × KvPair
value_of key none kv = (einval, kv)
value_of key (some (value, rest)) kv = (pos 0, record { key = key; value = value })

abbrev keyed : Tokens → Option ParamKey → String → KvPair → ℤ × KvPair
keyed strtok none rest kv = (einval, kv)
keyed strtok (some key) rest kv = value_of key (strtok rest) kv

abbrev parse_tokens : Tokens → Option (String × String) → KvPair → ℤ × KvPair
parse_tokens strtok none kv = (einval, kv)
parse_tokens strtok (some (name, rest)) kv = keyed strtok (parse_keyidx name) rest kv

-- `pa_pal_external_jack_parse_kvpair`: the code, and the pair, written on success alone.
unfoldable pub parse_kvpair : Tokens → String → KvPair → ℤ × KvPair
parse_kvpair strtok kvpair kv = parse_tokens strtok (strtok kvpair) kv

abbrev pub is_bta2dp : JackType → Bool
is_bta2dp bta2dp_out = true
is_bta2dp _ = false

-- `set_default_config`
unfoldable pub external_default_config : ChannelMap → JackType → JackOutConfig
external_default_config auto_map jack_type = record {
  encoding = encoding_pcm;
  rate = if is_bta2dp jack_type then 48000 else 16000;
  format = s16le;
  ss_channels = 2;
  map = auto_map;
  preemph_status = pos 0;
}

abbrev fire_event : JackEvent → Option JackOutConfig → Fired
fire_event event info = record { event = event; info = info }

-- `pal_jack_external_bt_connection`, with the argument, none where the message has another signature.
unfoldable pub bt_connection : Option Bool → Bool × List Fired
bt_connection none = (false, [])
bt_connection (some is_connect) =
    if is_connect
    then (true, fire_event jack_available none ∷ [])
    else (true, fire_event jack_unavailable none ∷ [])

-- `pal_jack_external_stop_stream`
abbrev pub stop_stream_external : Bool × List Fired
stop_stream_external = (true, fire_event jack_unavailable none ∷ [])

-- How PulseAudio reads the texts of a stream; an invalid encoding or map is none.
pub record Readers : Type 0 where
  pub encoding_from_string : String → Option Encoding
  pub parse_sample_format : String → SampleFormat
  pub channel_map_parse : String → Option ChannelMap

-- The members of the struct argument "(suss)".
pub record StreamArgs : Type 0 where
  pub encoding : String
  pub rate : ℕ
  pub format : String
  pub map : String

abbrev is_pcm : Encoding → Bool
is_pcm encoding_pcm = true
is_pcm _ = false

-- `junk` is what the member that no line writes holds.
abbrev with_stream_map : Readers → ℤ → StreamArgs → Encoding → Option ChannelMap → Bool × List Fired
with_stream_map r junk args encoding none = (false, [])
with_stream_map r junk args encoding (some map) =
    let config : JackOutConfig = record {
      encoding = encoding;
      rate = args.rate;
      format = if is_pcm encoding then r.parse_sample_format args.format else s16le;
      ss_channels = map.channels;
      map = map;
      preemph_status = junk;
    } in
    (true, fire_event jack_available none ∷ fire_event jack_config_update (some config) ∷ [])

abbrev with_stream_encoding : Readers → ℤ → StreamArgs → Option Encoding → Bool × List Fired
with_stream_encoding r junk args none = (false, [])
with_stream_encoding r junk args (some encoding) =
    with_stream_map r junk args encoding (r.channel_map_parse args.map)

-- `pal_jack_external_start_stream`, with the arguments, none where the message has another signature.
unfoldable pub start_external_stream : Readers → ℤ → Option StreamArgs → Bool × List Fired
start_external_stream r junk none = (false, [])
start_external_stream r junk (some args) =
    with_stream_encoding r junk args (r.encoding_from_string args.encoding)
