-- ===== src/LogConfig/Codec.antt =====
-- include/qc/config/log_config.h: the converters of the configuration of loggers. The converters of
-- its list of appenders are those of include/qc/config/config.h.
pub mod RoundTrip
pub mod Refusal
mod Tests
use qc.Base.{
  ◌==◌, ℕ, Bool, true, false, not, ◌&&◌, Option, none, some, List, [], ◌∷◌, if◌then◌else◌, ◌>>=◌,
  same, codes,
}
use qc.Log.{Level, value}
use qc.Config.Node.{Yaml}
use qc.Config.Converters.{Codec, encode_list, decode_list}
use qc.LogConfig.{AppenderConfig, LogConfig, is_file}

-- `static_cast<Level>` of an int: none where that is none of the enumerators.
abbrev pub level_of : ℕ → Option Level
level_of i =
    if i == 0
    then some Level.unknow
    else if i == 1
    then some Level.debug
    else if i == 2
    then some Level.info
    else if i == 3
    then some Level.warn
    else if i == 4
    then some Level.error
    else if i == 5
    then some Level.fatal
    else none

-- `static_cast<int>` of a level; `other` is the int that a level has that is none of the enumerators.
abbrev pub code_of : ℕ → Option Level → ℕ
code_of other none = other
code_of other (some l) = value l

module _ (yaml : Yaml) where
  open yaml use {Node, empty_node, set, entries, get, text, as_text, int, as_int}

  -- `config.level`, `config.pattern` and `config.filename` of a decoder, by the node of the key; a
  -- member that is not assigned keeps what it has in a new object.
  abbrev pub read_level : Option Node → Option (Option Level)
  read_level none = some none
  read_level (some n) = do i ← as_int n; some (level_of i)

  abbrev pub read_text : Option Node → Option (List ℕ)
  read_text none = some []
  read_text (some n) = as_text n

  abbrev pub is_none : {A : Type 0} → Option A → Bool
  is_none none = true
  is_none (some a) = false

  unfoldable pub encode_appender : ℕ → AppenderConfig → Node
  encode_appender other config =
      let n1 = set empty_node (codes "type") (text config.type) in
      let n2 = set n1 (codes "level") (int (code_of other config.level)) in
      let n3 = set n2 (codes "pattern") (text config.pattern) in
      set n3 (codes "filename") (text config.filename)

  abbrev pub guard : Bool → Option (Unit {0})
  guard true = some tt
  guard false = none

  unfoldable pub decode_appender : Node → Option AppenderConfig
  decode_appender node = do
    _ ← entries node
    type_node ← get node (codes "type")
    type_there ← type_node
    type ← as_text type_there
    filename_node ← get node (codes "filename")
    _ ← guard (not (same type (codes "FileAppender") && is_none filename_node))
    level_node ← get node (codes "level")
    level ← read_level level_node
    pattern_node ← get node (codes "pattern")
    pattern ← read_text pattern_node
    filename ← read_text filename_node
    some (record { type = type; level = level; pattern = pattern; filename = filename })

  abbrev pub appender_codec : ℕ → Codec yaml AppenderConfig
  appender_codec other = record { encode = encode_appender other; decode = decode_appender }

  unfoldable pub encode_config : ℕ → LogConfig → Node
  encode_config other config =
      let n1 = set empty_node (codes "level") (int (code_of other config.level)) in
      let n2 = set n1 (codes "pattern") (text config.pattern) in
      set n2 (codes "appenders") (encode_list yaml (appender_codec other) config.appenders)

  abbrev pub read_appenders : ℕ → Option Node → Option (List AppenderConfig)
  read_appenders other none = some []
  read_appenders other (some n) = decode_list yaml (appender_codec other) n

  unfoldable pub decode_config : ℕ → Node → Option LogConfig
  decode_config other node = do
    level_node ← get node (codes "level")
    level ← read_level level_node
    pattern_node ← get node (codes "pattern")
    pattern ← read_text pattern_node
    appenders_node ← get node (codes "appenders")
    appenders ← read_appenders other appenders_node
    some (record { level = level; pattern = pattern; appenders = appenders })

  abbrev pub config_codec : ℕ → Codec yaml LogConfig
  config_codec other = record { encode = encode_config other; decode = decode_config other }
