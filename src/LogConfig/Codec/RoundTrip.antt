-- ===== src/LogConfig/Codec/RoundTrip.antt =====
-- include/qc/config/log_config.h: configurations that are encoded and decoded again.

use mathlib.Core.Quot.{Quot}
use qc.Base.{
  ℕ, ◌<◌, ◌^◌, ◌≡◌, ◌≢◌, refl, ap, ◌∙◌, Bool, true, false, not, ◌&&◌, Option, none, some, List, [],
  ◌∷◌, ◌>>=◌, same, codes, All, arith,
}
use qc.Log.{Level, value}
use qc.Config.Node.{Yaml}
use qc.Config.Converters.{encode_list, encode_unordered_map, decode_unordered_map}
use qc.Config.Converters.Insertion.{DistinctKeys, unless_empty}
use qc.Config.Converters.RoundTrip.{EntriesBack, decode-encode_sequence}
use qc.Config.Converters.Unordered.{decode-encode_unordered_map}
use qc.LogConfig.{AppenderConfig, LogConfig}
use qc.LogConfig.Configured.{HasLevel, AllSet, LevelsSet}
use qc.LogConfig.Codec.{
  level_of, code_of, read_level, guard, encode_appender, decode_appender, appender_codec,
  encode_config, decode_config, config_codec,
}

level_of-value : (l : Level) → level_of (value l) ≡ some l
level_of-value Level.unknow = refl
level_of-value Level.debug = refl
level_of-value Level.info = refl
level_of-value Level.warn = refl
level_of-value Level.error = refl
level_of-value Level.fatal = refl

value-lt : (l : Level) → value l < 2 ^ 31
value-lt Level.unknow = omega arith
value-lt Level.debug = omega arith
value-lt Level.info = omega arith
value-lt Level.warn = omega arith
value-lt Level.error = omega arith
value-lt Level.fatal = omega arith

module _ (yaml : Yaml) where
  open yaml use {
    Node, empty_node, set, entries, get, text, as_text, int, as_int, entries_first, entries_set,
    get_entries, text_back, int_back,
  }

  read_level-value :
      (other : ℕ) (o : Option Level)
      → HasLevel o
      → read_level yaml (some (int (code_of other o))) ≡ some o
  read_level-value other none s = absurd s
  read_level-value other (some l) s =
      ap (λ r. r >>= λ i. some (level_of i)) (int_back (value l) (value-lt l))
      ∙ ap some (level_of-value l)

  abbrev appender_entries : ℕ → AppenderConfig → List (List ℕ × Node)
  appender_entries other c =
      (codes "type", text c.type)
      ∷ (codes "level", int (code_of other c.level))
      ∷ (codes "pattern", text c.pattern)
      ∷ (codes "filename", text c.filename)
      ∷ []

  entries-encode_appender :
      (other : ℕ) (c : AppenderConfig)
      → entries (encode_appender yaml other c) ≡ some (appender_entries other c)
  unfolding encode_appender
  entries-encode_appender other c =
      let n1 = set empty_node (codes "type") (text c.type) in
      let n2 = set n1 (codes "level") (int (code_of other c.level)) in
      let n3 = set n2 (codes "pattern") (text c.pattern) in
      let e1 = entries_first (codes "type") (text c.type) in
      let e2 = entries_set n1 (int (code_of other c.level)) (codes "level") _ e1 refl in
      let e3 = entries_set n2 (text c.pattern) (codes "pattern") _ e2 refl in
      entries_set n3 (text c.filename) (codes "filename") _ e3 refl

  unguarded : (b : Bool) → guard yaml (not (b && false)) ≡ some tt
  unguarded true = refl
  unguarded false = refl

  decode-encode_appender :
      (other : ℕ) (c : AppenderConfig)
      → HasLevel c.level
      → decode_appender yaml (encode_appender yaml other c) ≡ some c
  unfolding decode_appender
  decode-encode_appender other c s =
      let n = encode_appender yaml other c in
      let e = entries-encode_appender other c in
      rw
        (
          e,
          get_entries n (codes "type") (appender_entries other c) e,
          text_back c.type,
          get_entries n (codes "filename") (appender_entries other c) e,
          unguarded (same c.type (codes "FileAppender")),
          get_entries n (codes "level") (appender_entries other c) e,
          read_level-value other c.level s,
          get_entries n (codes "pattern") (appender_entries other c) e,
          text_back c.pattern,
          text_back c.filename,
        )
        refl

  AllSet-back :
      (other : ℕ) (cs : List AppenderConfig)
      → AllSet cs
      → All (λ c. decode_appender yaml (encode_appender yaml other c) ≡ some c) cs
  unfolding AllSet
  AllSet-back other [] s = tt
  AllSet-back other (c ∷ cs) s = (decode-encode_appender other c s.0, AllSet-back other cs s.1)

  abbrev config_entries : ℕ → LogConfig → List (List ℕ × Node)
  config_entries other config =
      (codes "level", int (code_of other config.level))
      ∷ (codes "pattern", text config.pattern)
      ∷ (codes "appenders", encode_list yaml (appender_codec yaml other) config.appenders)
      ∷ []

  entries-encode_config :
      (other : ℕ) (config : LogConfig)
      → entries (encode_config yaml other config) ≡ some (config_entries other config)
  unfolding encode_config
  entries-encode_config other config =
      let n1 = set empty_node (codes "level") (int (code_of other config.level)) in
      let n2 = set n1 (codes "pattern") (text config.pattern) in
      let e1 = entries_first (codes "level") (int (code_of other config.level)) in
      let e2 = entries_set n1 (text config.pattern) (codes "pattern") _ e1 refl in
      entries_set n2 (encode_list yaml (appender_codec yaml other) config.appenders)
        (codes "appenders") _ e2 refl

  with_appenders :
      (config : LogConfig) (cs : List AppenderConfig)
      → (unless_empty cs config.appenders >>= λ as'. some (record config { appenders = as' }))
        ≡ unless_empty cs config
  with_appenders config [] = refl
  with_appenders config (c ∷ cs) = refl

  -- A configuration with levels that are set is read back as it was, but for one without appenders:
  -- what that is encoded to is refused.
  pub decode-encode_config :
      (other : ℕ) (config : LogConfig)
      → LevelsSet config
      → decode_config yaml other (encode_config yaml other config)
        ≡ unless_empty config.appenders config
  unfolding decode_config
  decode-encode_config other config s =
      let n = encode_config yaml other config in
      let e = entries-encode_config other config in
      let back =
        decode-encode_sequence yaml (appender_codec yaml other) config.appenders
          (AllSet-back other config.appenders s.1) in
      rw
        (
          get_entries n (codes "level") (config_entries other config) e,
          read_level-value other config.level s.0,
          get_entries n (codes "pattern") (config_entries other config) e,
          text_back config.pattern,
          get_entries n (codes "appenders") (config_entries other config) e,
          back.1,
        )
        (with_appenders config config.appenders)

  abbrev pub Complete : LogConfig → Type 0
  Complete config = LevelsSet config × (config.appenders ≢ [])

  Complete-back :
      (other : ℕ) (es : List (List ℕ × LogConfig))
      → All (λ e. Complete e.1) es
      → EntriesBack yaml (config_codec yaml other) es
  Complete-back other [] h = tt
  Complete-back other ((k, config) ∷ es) h = (
    decode-encode_config other config h.0.0 ∙ filled config.appenders h.0.1,
    Complete-back other es h.1,
  )
    where
      filled : (cs : List AppenderConfig) → cs ≢ [] → unless_empty cs config ≡ some config
      filled [] f = absurd (f refl)
      filled (c ∷ cs) f = refl

  -- The value of `logs`, with levels that are set and no configuration without appenders, is read back
  -- with the same configurations, in whatever order they are gone through; no configurations at all
  -- are refused.
  pub decode-encode_logs :
      (other : ℕ) (es : List (List ℕ × LogConfig))
      → DistinctKeys es
      → All (λ e. Complete e.1) es
      → decode_unordered_map yaml
          (config_codec yaml other)
          (encode_unordered_map yaml (config_codec yaml other) es)
        ≡ unless_empty es (Quot.mk es)
  decode-encode_logs other es u h =
      decode-encode_unordered_map yaml (config_codec yaml other) es (Complete-back other es h) u
