-- ===== src/Log/Manager.antt =====
-- src/log/manager.cpp and src/log/warp.cpp: the loggers by name, the layouts by pattern, and the
-- wrapper that logs its event when it is destroyed.
use qc.Base.{
  same, ℕ, zero, suc, Bool, true, false, Option, none, some, List, [], ◌∷◌, ◌++◌, leb,
  if◌then◌else◌, update,
}
use qc.Log.{Level, value, Event, append_name}
use qc.Log.Layout.{FormatItem, Platform, init, default_time}
use qc.Log.Logger.{
  Logger, Output, console_appender, set_appender_layout, new_logger, add_appender, set_valid, log,
}

abbrev pub lookup {ℓ} : {A : Type ℓ} → List ℕ → List (List ℕ × A) → Option A
lookup key [] = none
lookup key ((k, a) ∷ rest) = if same key k then some a else lookup key rest

-- The members of the manager, and the loggers by address; `fresh` is the next one.
pub record Manager : Type 0 where
  pub loggers : List (List ℕ × ℕ)
  pub layouts : List (List ℕ × List FormatItem)
  pub pattern : List ℕ
  pub root : ℕ
  pub level : Level
  pub layout : List FormatItem
  pub store : ℕ → Logger
  pub fresh : ℕ

-- "root"
abbrev pub root_name : List ℕ
root_name = b'r' ∷ b'o' ∷ b'o' ∷ b't' ∷ []

-- "%d{%Y-%m-%d %H:%M:%S}%t%T%t%N%t%C%t[%p]%t[%c]%t%f:%l%t%m%n"
abbrev pub default_pattern : List ℕ
default_pattern =
    b'%' ∷ b'd' ∷ b'{' ∷ default_time
    ++ b'}' ∷ b'%' ∷ b't' ∷ b'%' ∷ b'T' ∷ b'%' ∷ b't' ∷ b'%' ∷ b'N' ∷ b'%' ∷ b't' ∷ b'%' ∷ b'C'
      ∷ b'%' ∷ b't' ∷ b'[' ∷ b'%' ∷ b'p' ∷ b']' ∷ b'%' ∷ b't' ∷ b'[' ∷ b'%' ∷ b'c' ∷ b']' ∷ b'%'
      ∷ b't' ∷ b'%' ∷ b'f' ∷ b':' ∷ b'%' ∷ b'l' ∷ b'%' ∷ b't' ∷ b'%' ∷ b'm' ∷ b'%' ∷ b'n' ∷ []

abbrev pub default_layout : List FormatItem
default_layout = (init default_pattern).0

-- The constructor and `init`; the root logger is at address 0.
unfoldable pub new_manager : Manager
unfolding add_appender
new_manager = record {
  loggers = (root_name, 0) ∷ [];
  layouts = (default_pattern, default_layout) ∷ [];
  pattern = default_pattern;
  root = 0;
  level = Level.unknow;
  layout = default_layout;
  store = λ _. set_valid true (
      add_appender (set_appender_layout (some default_layout) (console_appender 0 Level.unknow))
        (new_logger root_name));
  fresh = 1;
}

unfoldable pub get_logger : List ℕ → Manager → ℕ × Manager
get_logger name m = elim (lookup name m.loggers) [
  | some a ↦ (a, m)
  | none ↦ (
    m.fresh,
    record m {
      loggers = (name, m.fresh) ∷ m.loggers;
      store = update m.store m.fresh (set_valid false (new_logger name));
      fresh = suc m.fresh;
    },
  )
]

unfoldable pub get_layout : List ℕ → Manager → List FormatItem × Manager
get_layout pattern m = elim (lookup pattern m.layouts) [
  | some its ↦ (its, m)
  | none ↦ ((init pattern).0, record m { layouts = (pattern, (init pattern).0) ∷ m.layouts })
]

-- `logger->getLevel() <= level`, before an event is made; `none` reads a level that nothing has set.
unfoldable pub passes : Logger → Level → Option Bool
passes l lvl = elim l.level [ none ↦ none | some m ↦ some (leb (value m) (value lvl)) ]

-- "(root)"
abbrev pub root_mark : List ℕ
root_mark = b'(' ∷ b'r' ∷ b'o' ∷ b'o' ∷ b't' ∷ b')' ∷ []

module _ (platform : Platform) (root_error : Event) where
  -- The destructor of Warp, for an event that is not null and loggers that it does not change.
  -- `root_error` is the event of its own LOG_ERROR, which another Warp logs: `some none` when the
  -- fuel, for that recursion, runs out.
  unfoldable pub close_warp : ℕ → Logger → Logger → Event → Output → Option (Option Output)
  unfolding log passes
  close_warp zero root l e w = some none
  close_warp (suc n) root l e w = elim (log platform l e w) [
    | none ↦ none
    | some (true, w') ↦ some (some w')
    | some (false, w') ↦
        let nested = close_warp n root root root_error w' in
        elim (passes root Level.error) [
          | none ↦ none
          | some p ↦ elim (if p then nested else some (some w')) [
            | none ↦ none
            | some none ↦ some none
            | some (some w'') ↦ elim (log platform root (append_name root_mark e) w'') [
              | none ↦ none
              | some (b, v) ↦ some (some v)
            ]
          ]
        ]
  ]
