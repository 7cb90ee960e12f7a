-- ===== src/Log.antt =====
-- src/log and include/qc/log: events, layouts, appenders, loggers and the manager. A character is a
-- byte, by its number; a string is a list of bytes.
pub mod Layout
pub mod Logger
pub mod Manager
pub mod Delivery
pub mod Registry
pub mod View
pub mod Default
pub mod Macro
pub mod Statement
mod Tests
use qc.Base.{ℕ, ◌+◌, ◌%◌, ◌^◌, Bool, true, false, Option, none, some, List, [], ◌∷◌, ◌++◌, leb}

pub data Level : Type 0 where
  unknow debug info warn error fatal : Level

-- The value of the enumeration.
abbrev pub value : Level → ℕ
value Level.unknow = 0
value Level.debug = 1
value Level.info = 2
value Level.warn = 3
value Level.error = 4
value Level.fatal = 5

-- `event->getLevel() >= m_level`
abbrev pub at_least : Level → Level → Bool
at_least l m = leb (value m) (value l)

pub record Event : Type 0 where
  pub filename : List ℕ
  pub level : Level
  pub line : ℕ
  pub thread_id : ℕ
  pub thread_name : List ℕ
  pub coroutine_id : ℕ
  pub elapse : ℕ
  pub time : ℕ
  pub name : List ℕ
  pub ss : List ℕ

abbrev u32 : ℕ → ℕ
u32 n = n % 2 ^ 32

unfoldable pub new_event : List ℕ → ℕ → ℕ → ℕ → List ℕ → ℕ → ℕ → Level → List ℕ → Event
new_event filename line elapse thread_id thread_name fiber_id time level name = record {
  filename = filename;
  level = level;
  line = u32 line;
  thread_id = u32 thread_id;
  thread_name = thread_name;
  coroutine_id = u32 fiber_id;
  elapse = u32 elapse;
  time = time;
  name = name;
  ss = [];
}

abbrev pub append_name : List ℕ → Event → Event
append_name str e = record e { name = e.name ++ str }

-- "[Format Error]"
abbrev pub format_error : List ℕ
format_error =
    b'[' ∷ b'F' ∷ b'o' ∷ b'r' ∷ b'm' ∷ b'a' ∷ b't' ∷ b' ' ∷ b'E' ∷ b'r' ∷ b'r' ∷ b'o' ∷ b'r' ∷ b']'
    ∷ []

-- `format`, with what `vasprintf` makes of its arguments, `none` when it fails.
unfoldable pub format : Option (List ℕ) → Event → Event
format (some buf) e = record e { ss = e.ss ++ buf }
format none e = record e { ss = e.ss ++ format_error }
