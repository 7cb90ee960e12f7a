-- ===== src/LogConfig/Codec/Tests.antt =====
-- The theorems about the converters of configurations at concrete values.
use mathlib.Core.Quot
use qc.Base.{ℕ, ◌≡◌, ◌≢◌, refl, true, none, some, List, [], ◌∷◌, codes}
use qc.Log.{Level}
use qc.Config.Converters.{encode_unordered_map, decode_unordered_map}
use qc.Config.Tree.{Tree, trees}
use qc.LogConfig.{AppenderConfig, LogConfig, FileSystem}
use qc.LogConfig.Configured.{AllSet}
use qc.Config.Converters.Insertion.{DistinctKeys}
use qc.LogConfig.Codec.{config_codec}
use qc.LogConfig.Codec.RoundTrip.{decode-encode_logs}

abbrev to_file : AppenderConfig
to_file = record {
  type = codes "FileAppender";
  level = some Level.warn;
  pattern = codes "%m";
  filename = codes "./a.log";
}

abbrev service : LogConfig
service = record { level = some Level.info; pattern = []; appenders = to_file ∷ [] }

abbrev nothing : LogConfig
nothing = record { level = some Level.info; pattern = []; appenders = [] }

abbrev logs : List (List ℕ × LogConfig)
logs = (codes "service", service) ∷ []

has_appender : to_file ∷ [] ≢ []
has_appender e = cc

decode-encode_logs_example :
    decode_unordered_map trees
      (config_codec trees 9)
      (encode_unordered_map trees (config_codec trees 9) logs)
    ≡ some (Quot.mk logs)
unfolding AllSet DistinctKeys
decode-encode_logs_example =
    decode-encode_logs trees 9 logs (refl, tt) (((tt, (tt, tt)), has_appender), tt)

abbrev everything : FileSystem
everything = record { has_directory = λ path. true; can_open = λ path. true }

-- A configuration without a level.
abbrev no_level : Tree
no_level = Tree.put Tree.null (codes "pattern") (Tree.scalar (codes "%m"))

abbrev unset : LogConfig
unset = record { level = none; pattern = codes "%m"; appenders = [] }
