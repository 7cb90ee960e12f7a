-- ===== src/LogConfig/Configured.antt =====
-- src/config/log_config.cpp: the logger that a configuration describes.
use qc.Base.{
  ◌≡◌, refl, Bool, false, ◌==◌, length, same, ℕ, suc, true, ◌&&◌, Option, none, some, List, [], ◌∷◌,
  ◌++◌, if◌then◌else◌,
}
use qc.Log.{Level, value}
use qc.Log.Layout.{FormatItem, init}
use qc.Log.Logger.{
  Appender, Logger, console_appender, file_appender, set_appender_level, set_appender_layout,
}
use qc.Log.Manager.{Manager}
use qc.LogConfig.{
  AppenderConfig, LogConfig, FileSystem, is_console, is_file, or_pattern, same_level, and_also,
  same_appender, same_members, same_config,
}

-- What a level, a layout and an appender come to.
abbrev pub known : Option Level → Level → Level
known none lvl = lvl
known (some Level.unknow) lvl = lvl
known (some l) lvl = l

abbrev pub read_layout : List ℕ → List FormatItem → List FormatItem
read_layout [] its = its
read_layout (c ∷ cs) its = (init (c ∷ cs)).0

abbrev pub fitted : AppenderConfig → Level → List FormatItem → Appender → Appender
fitted c lvl its a =
    set_appender_layout (some (read_layout c.pattern its))
      (set_appender_level (known c.level lvl) a)

abbrev pub made : FileSystem → ℕ → AppenderConfig → Level → List FormatItem → List Appender
made fs address c lvl its =
    if is_console c
    then fitted c lvl its (console_appender address lvl) ∷ []
    else if is_file c && fs.has_directory c.filename
    then fitted c lvl its (file_appender address fs.can_open c.filename lvl) ∷ []
    else []

unfoldable pub all_made :
    FileSystem → ℕ → List AppenderConfig → Level → List FormatItem → List Appender
all_made fs address [] lvl its = []
all_made fs address (c ∷ cs) lvl its =
    made fs address c lvl its ++ all_made fs (suc address) cs lvl its

-- The logger of a name under a configuration, with the defaults of the manager.
abbrev pub configured : FileSystem → ℕ → List ℕ → LogConfig → Manager → Logger
configured fs address name config m = record {
  name = name;
  level = some (known config.level m.level);
  pattern = or_pattern config.pattern m.pattern;
  layout = some (read_layout config.pattern m.layout);
  appenders =
      all_made fs address config.appenders (known config.level m.level)
        (read_layout config.pattern m.layout);
  valid = some true;
}

-- Every level of a configuration is one of the enumerators.
abbrev pub HasLevel : Option Level → Type 0
HasLevel none = ⊥
HasLevel (some l) = Unit

unfoldable pub AllSet : List AppenderConfig → Type 0
AllSet [] = Unit
AllSet (c ∷ cs) = HasLevel c.level × AllSet cs

abbrev pub LevelsSet : LogConfig → Type 0
LevelsSet config = HasLevel config.level × AllSet config.appenders

-- Whether two configurations are equal, where their levels are set.
abbrev pub equal_level : Option Level → Option Level → Bool
equal_level (some a) (some b) = value a == value b
equal_level _ _ = false

abbrev pub equal_appender : AppenderConfig → AppenderConfig → Bool
equal_appender a b =
    same a.type b.type
    && (equal_level a.level b.level && (same a.pattern b.pattern && same a.filename b.filename))

abbrev pub equal_members : List AppenderConfig → List AppenderConfig → Bool
equal_members (a ∷ rest) (b ∷ others) = equal_appender a b && equal_members rest others
equal_members _ _ = true

abbrev pub equal_config : LogConfig → LogConfig → Bool
equal_config a b =
    equal_level a.level b.level
    && (same a.pattern b.pattern
        && ((length a.appenders == length b.appenders) && equal_members a.appenders b.appenders))

and_also-some : (a b : Bool) → and_also (some a) (some b) ≡ some (a && b)
and_also-some true b = refl
and_also-some false b = refl

same_level-equal_level :
    (a b : Option Level) → HasLevel a → HasLevel b → same_level a b ≡ some (equal_level a b)
same_level-equal_level none b s t = absurd s
same_level-equal_level (some a) none s t = absurd t
same_level-equal_level (some a) (some b) s t = refl

same_appender-equal_appender :
    (a b : AppenderConfig)
    → HasLevel a.level
    → HasLevel b.level
    → same_appender a b ≡ some (equal_appender a b)
same_appender-equal_appender a b s t =
    rw
      (
        same_level-equal_level a.level b.level s t,
        and_also-some (equal_level a.level b.level)
            (same a.pattern b.pattern && same a.filename b.filename),
      )
      (and_also-some (same a.type b.type)
        (equal_level a.level b.level && (same a.pattern b.pattern && same a.filename b.filename)))

same_members-equal_members :
    (xs ys : List AppenderConfig)
    → AllSet xs
    → AllSet ys
    → same_members xs ys ≡ some (equal_members xs ys)
unfolding AllSet
same_members-equal_members [] ys s t = refl
same_members-equal_members (x ∷ xs) [] s t = refl
same_members-equal_members (x ∷ xs) (y ∷ ys) s t =
    rw (same_appender-equal_appender x y s.0 t.0, same_members-equal_members xs ys s.1 t.1)
      (and_also-some (equal_appender x y) (equal_members xs ys))

pub same_config-equal_config :
    (a b : LogConfig) → LevelsSet a → LevelsSet b → same_config a b ≡ some (equal_config a b)
same_config-equal_config a b s t =
    rw
      (
        same_level-equal_level a.level b.level s.0 t.0,
        same_members-equal_members a.appenders b.appenders s.1 t.1,
        and_also-some (length a.appenders == length b.appenders)
            (equal_members a.appenders b.appenders),
        and_also-some (same a.pattern b.pattern)
            ((length a.appenders == length b.appenders) && equal_members a.appenders b.appenders),
      )
      (and_also-some (equal_level a.level b.level) (
        same a.pattern b.pattern
        && ((length a.appenders == length b.appenders) && equal_members a.appenders b.appenders)))
