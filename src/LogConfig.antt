-- ===== src/LogConfig.antt =====
-- src/config/log_config.cpp and include/qc/config/log_config.h: the configuration of loggers, and the
-- listener that rebuilds the loggers when it changes. A level that nothing has set, or that is none of
-- the enumerators, is `none`; where the code reads one the result is `none`.
pub mod Configured
pub mod Equality
pub mod Setup
pub mod Delivery
pub mod Interleaving
pub mod Listener
pub mod Change
pub mod Kept
pub mod History
pub mod Loading
pub mod Order
pub mod Codec
mod Tests
use qc.Base.{
  ◌==◌, ℕ, suc, Bool, true, false, not, ◌&&◌, ◌||◌, Option, none, some, List, [], ◌∷◌, ◌++◌,
  if◌then◌else◌, ◌>>=◌, length, same, codes,
}
use qc.Log.{Level, value}
use qc.Log.Layout.{FormatItem}
use qc.Log.Logger.{
  Appender, Logger, console_appender, file_appender, set_appender_level, set_appender_layout,
  add_appender, clear_appenders, set_level, set_pattern, set_layout, set_valid,
}
use qc.Log.Manager.{Manager, lookup, get_logger, get_layout, root_name}
use qc.Log.View.{put_logger}

pub record AppenderConfig : Type 0 where
  pub type : List ℕ
  pub level : Option Level
  pub pattern : List ℕ
  pub filename : List ℕ

pub record LogConfig : Type 0 where
  pub level : Option Level
  pub pattern : List ℕ
  pub appenders : List AppenderConfig

-- `operator==`, by default member by member up to the first difference; lists first by their lengths.
abbrev pub same_level : Option Level → Option Level → Option Bool
same_level (some a) (some b) = some (value a == value b)
same_level _ _ = none

abbrev pub and_also : Option Bool → Option Bool → Option Bool
and_also none b = none
and_also (some false) b = some false
and_also (some true) b = b

abbrev pub same_appender : AppenderConfig → AppenderConfig → Option Bool
same_appender a b = and_also (some (same a.type b.type)) (
    and_also (same_level a.level b.level)
      (some (same a.pattern b.pattern && same a.filename b.filename)))

abbrev pub same_members : List AppenderConfig → List AppenderConfig → Option Bool
same_members (a ∷ rest) (b ∷ others) = and_also (same_appender a b) (same_members rest others)
same_members _ _ = some true

abbrev pub same_appenders : List AppenderConfig → List AppenderConfig → Option Bool
same_appenders xs ys = and_also (some (length xs == length ys)) (same_members xs ys)

abbrev pub same_config : LogConfig → LogConfig → Option Bool
same_config a b =
    and_also (same_level a.level b.level)
      (and_also (some (same a.pattern b.pattern)) (same_appenders a.appenders b.appenders))

abbrev pub is_console : AppenderConfig → Bool
is_console c = same c.type (codes "ConsoleAppender")

abbrev pub is_file : AppenderConfig → Bool
is_file c = same c.type (codes "FileAppender")

-- What the file system says: whether the directory of a file is there or can be made, and whether
-- the file then opens.
pub record FileSystem : Type 0 where
  pub has_directory : List ℕ → Bool
  pub can_open : List ℕ → Bool

-- A level of a configuration, or another where it is UNKNOW.
abbrev pub or_level : Option Level → Level → Option Level
or_level none lvl = none
or_level (some Level.unknow) lvl = some lvl
or_level (some l) lvl = some l

-- The layout of a pattern, or another where the pattern is empty.
abbrev pub or_layout : List ℕ → List FormatItem → Manager → List FormatItem × Manager
or_layout [] its m = (its, m)
or_layout (c ∷ cs) its m = get_layout (c ∷ cs) m

abbrev pub or_pattern : List ℕ → List ℕ → List ℕ
or_pattern [] p = p
or_pattern (c ∷ cs) p = c ∷ cs

-- The level and the layout of an appender that has been made.
unfoldable pub fit_appender :
    AppenderConfig
    → Level
    → List FormatItem
    → Appender
    → Manager
    → Option (Option Appender × Manager)
fit_appender c lvl its a m = do
  v ← or_level c.level lvl
  let (own, m') = or_layout c.pattern its m
  some (some (set_appender_layout (some own) (set_appender_level v a)), m')

module _ (fs : FileSystem) where
  open fs use {has_directory, can_open}

  -- One turn of the loop of `setupLogger`: the appender, or none where it is skipped.
  unfoldable pub make_appender :
      ℕ → AppenderConfig → Level → List FormatItem → Manager → Option (Option Appender × Manager)
  unfolding fit_appender
  make_appender address c lvl its m =
      if is_console c
      then fit_appender c lvl its (console_appender address lvl) m
      else if is_file c && has_directory c.filename
      then fit_appender c lvl its (file_appender address can_open c.filename lvl) m
      else some (none, m)

  abbrev pub add_made : Option Appender → Logger → Logger
  add_made none l = l
  add_made (some a) l = add_appender a l

  -- The loop of `setupLogger`; the next appender is at the next address.
  unfoldable pub add_appenders :
      ℕ
      → List AppenderConfig
      → Level
      → List FormatItem
      → Logger
      → Manager
      → Option (Logger × Manager)
  unfolding make_appender
  add_appenders address [] lvl its l m = some (l, m)
  add_appenders address (c ∷ cs) lvl its l m = do
    (made, m') ← make_appender address c lvl its m
    add_appenders (suc address) cs lvl its (add_made made l) m'

  unfoldable pub setup_logger : ℕ → List ℕ → LogConfig → Manager → Option Manager
  unfolding add_appenders
  setup_logger address name config m = do
    let (a, m1) = get_logger name m
    let l0 = set_valid false (m1.store a)
    let (its, m2) = or_layout config.pattern m1.layout m1
    lvl ← or_level config.level m1.level
    let l1 =
        set_layout (some its)
          (set_pattern (or_pattern config.pattern m1.pattern) (set_level lvl l0))
    (l2, m3) ← add_appenders address config.appenders lvl its (clear_appenders l1) m2
    some (put_logger a (set_valid true l2) m3)

  abbrev pub Configs : Type 0
  Configs = List (List ℕ × LogConfig)

  -- One turn of the listener's loop over the new values.
  unfoldable pub load_config : ℕ → Configs → List ℕ → LogConfig → Manager → Option Manager
  unfolding setup_logger
  load_config address old_val name config m =
      if same name root_name then some m else elim (lookup name old_val) [
        | none ↦ setup_logger address name config m
        | some old ↦ do
          equal ← same_config config old
          if equal then some m else setup_logger address name config m
      ]

  unfoldable pub load_configs : ℕ → Configs → Configs → Manager → Option Manager
  unfolding load_config
  load_configs address old_val [] m = some m
  load_configs address old_val ((name, config) ∷ rest) m = do
    m' ← load_config address old_val name config m
    load_configs address old_val rest m'

  -- One turn of the loop over the old values, and the loop.
  unfoldable pub drop_config : Configs → List ℕ → Manager → Manager
  drop_config new_val name m = if same name root_name then m else elim (lookup name new_val) [
    | some config ↦ m
    | none ↦
        let (a, m') = get_logger name m in
        put_logger a (clear_appenders (set_valid false (m'.store a))) m'
  ]

  unfoldable pub drop_configs : Configs → Configs → Manager → Manager
  unfolding drop_config
  drop_configs new_val [] m = m
  drop_configs new_val ((name, config) ∷ rest) m =
      drop_configs new_val rest (drop_config new_val name m)

  -- The listener of `logs`. The appenders of each logger are at addresses from `address` on, which only
  -- tell the appenders of one logger apart. The messages that the listener logs are left out.
  unfoldable pub on_change : ℕ → Configs → Configs → Manager → Option Manager
  unfolding load_configs drop_configs
  on_change address old_val new_val m = do
    m' ← load_configs address old_val new_val m
    some (drop_configs new_val old_val m')
