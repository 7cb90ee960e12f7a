-- ===== src/Log/Logger.antt =====
-- src/log/logger.cpp and src/log/appender.cpp: loggers, appenders and what they write. Each operation
-- of a logger runs under its mutex, so it is one step. `none` is undefined behaviour: a call through
-- a null layout or a read of a member that nothing has set.
use qc.Base.{ℕ, Bool, true, false, Option, none, some, List, [], ◌∷◌, ◌++◌, ◌==◌, if◌then◌else◌}
use qc.Log.{Level, at_least, Event}
use qc.Log.Layout.{FormatItem, Platform, layout}

-- Where an appender writes.
pub data Sink : Type 0 where
  console : Sink
  file : (filename : List ℕ) → Sink

-- An appender, at its address. A file's stream is open, or a write to it is dropped.
pub record Appender : Type 0 where
  pub address : ℕ
  pub sink : Sink
  pub is_open : Bool
  pub level : Level
  pub layout : Option (List FormatItem)

-- What has been written so far, in order.
abbrev pub Output : Type 0
Output = List (Sink × List ℕ)

abbrev pub console_appender : ℕ → Level → Appender
console_appender address lvl = record {
  address = address;
  sink = console;
  is_open = true;
  level = lvl;
  layout = none;
}

-- The constructor of FileAppender with `reopen`; whether the file opens is up to the system.
abbrev pub file_appender : ℕ → (List ℕ → Bool) → List ℕ → Level → Appender
file_appender address can_open filename lvl = record {
  address = address;
  sink = file filename;
  is_open = can_open filename;
  level = lvl;
  layout = none;
}

abbrev pub set_appender_level : Level → Appender → Appender
set_appender_level lvl a = record a { level = lvl }

abbrev pub set_appender_layout : Option (List FormatItem) → Appender → Appender
set_appender_layout l a = record a { layout = l }

-- A logger. Its constructor sets the name only: `level` and `valid` are `none` until they are set.
pub record Logger : Type 0 where
  pub name : List ℕ
  pub level : Option Level
  pub pattern : List ℕ
  pub layout : Option (List FormatItem)
  pub appenders : List Appender
  pub valid : Option Bool

abbrev pub new_logger : List ℕ → Logger
new_logger name = record {
  name = name;
  level = none;
  pattern = [];
  layout = none;
  appenders = [];
  valid = none;
}

abbrev pub has_layout : Appender → Bool
has_layout a = elim a.layout [ some its ↦ true | none ↦ false ]

-- `addAppender`: an appender without a layout gets the logger's.
unfoldable pub add_appender : Appender → Logger → Logger
add_appender a l = record l {
  appenders = l.appenders ++ (if has_layout a then a else record a { layout = l.layout }) ∷ [];
}

-- `std::list::remove` by address
unfoldable pub remove : ℕ → List Appender → List Appender
remove address [] = []
remove address (a ∷ others) =
    let rest = remove address others in if a.address == address then rest else a ∷ rest

unfoldable pub del_appender : Appender → Logger → Logger
unfolding remove
del_appender a l = record l { appenders = remove a.address l.appenders }

abbrev pub clear_appenders : Logger → Logger
clear_appenders l = record l { appenders = [] }

abbrev pub set_level : Level → Logger → Logger
set_level lvl l = record l { level = some lvl }

abbrev pub set_pattern : List ℕ → Logger → Logger
set_pattern p l = record l { pattern = p }

abbrev pub set_layout : Option (List FormatItem) → Logger → Logger
set_layout its l = record l { layout = its }

abbrev pub set_valid : Bool → Logger → Logger
set_valid b l = record l { valid = some b }

module _ (platform : Platform) where
  -- `log` of either class of appender.
  unfoldable pub append_log : Appender → Event → Output → Option Output
  append_log a e w =
      if at_least e.level a.level
      then elim a.layout [
        | none ↦ none
        | some its ↦ some (if a.is_open then w ++ (a.sink, layout platform its e) ∷ [] else w)
      ]
      else some w

  unfoldable pub log_all : List Appender → Event → Output → Option Output
  unfolding append_log
  log_all [] e w = some w
  log_all (a ∷ rest) e w = elim (append_log a e w) [ none ↦ none | some w' ↦ log_all rest e w' ]

  -- `Logger::log`: whether the logger is valid, and what has been written.
  unfoldable pub log : Logger → Event → Output → Option (Bool × Output)
  unfolding log_all
  log l e w = elim l.valid [
    | none ↦ none
    | some false ↦ some (false, w)
    | some true ↦ elim (log_all l.appenders e w) [ none ↦ none | some w' ↦ some (true, w') ]
  ]
