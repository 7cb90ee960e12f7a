-- ===== src/Locking.antt =====
-- Which locks the operations of the configuration and of the log take while they hold others, over
-- include/qc/config/config.h, src/config/, src/log/ and include/qc/macro.h.
pub mod Threads
pub mod Order
pub mod Calls
pub mod Invariant
pub mod Progress
mod Tests
use qc.Base.{ℕ, Bool, true, false, List, [], ◌∷◌, ◌++◌, map}

-- A ReadLock is shared; a WriteLock is exclusive, and so is a ScopedLock.
pub data Mode : Type 0 where
  shared exclusive : Mode

-- The mutex of Config::getMutex, m_mutex of a ConfigVar, of the Manager, of a Logger and of an Appender.
pub data LockName : Type 0 where
  registry : LockName
  variable : (v : ℕ) → LockName
  manager : LockName
  logger : (l : ℕ) → LockName
  appender : (a : ℕ) → LockName

pub data Act : Type 0 where
  take : Mode → LockName → Act
  release : Mode → LockName → Act

-- A block with a ReadLock, WriteLock or ScopedLock object at its start.
abbrev pub within : Mode → LockName → List Act → List Act
within m k body = take m k ∷ (body ++ release m k ∷ [])

abbrev pub in_turn : {A : Type 0} → (A → List Act) → List A → List Act
in_turn f [] = []
in_turn f (x ∷ xs) = f x ++ in_turn f xs

-- `Appender::log` above the level of the appender, and `Logger::log` with the appenders that write.
unfoldable pub write_out : ℕ → List Act
write_out a = within Mode.exclusive (LockName.appender a) []

unfoldable pub log_to : ℕ → List ℕ → List Act
log_to l appenders = within Mode.shared (LockName.logger l) (in_turn write_out appenders)

-- `getLevel`, `getLayout` and `isValid` of a Logger; and its operations that write.
unfoldable pub read_logger : ℕ → List Act
read_logger l = within Mode.shared (LockName.logger l) []

unfoldable pub write_logger : ℕ → List Act
write_logger l = within Mode.exclusive (LockName.logger l) []

-- What becomes of a log statement: the level keeps it out; its logger writes it; or its logger is not
-- valid, and the destructor of the Warp makes a statement on the root logger before that writes it.
pub data Statement : Type 0 where
  silent : (l : ℕ) → Statement
  written : (l : ℕ) (appenders : List ℕ) → Statement
  redirected : (l : ℕ) (notice : Statement) (root : ℕ) (appenders : List ℕ) → Statement

-- A log statement with what printing its values takes, which happens after the test of the level.
unfoldable pub printing : Statement → List Act → List Act
unfolding read_logger log_to write_out
printing (Statement.silent l) values = read_logger l
printing (Statement.written l appenders) values = read_logger l ++ (values ++ log_to l appenders)
printing (Statement.redirected l notice root appenders) values =
    read_logger l ++ (values ++ (log_to l [] ++ (printing notice [] ++ log_to root appenders)))

abbrev pub statement : Statement → List Act
statement s = printing s []

-- `Manager::getLogger`, which calls setValid of a logger that it makes, and `Manager::getLayout`.
unfoldable pub get_logger_acts : Bool → ℕ → List Act
unfolding write_logger
get_logger_acts found l =
    within Mode.exclusive LockName.manager (elim found [ true ↦ [] | false ↦ write_logger l ])

unfoldable pub get_layout_acts : List Act
get_layout_acts = within Mode.exclusive LockName.manager []

-- What setupLogger does for an appender: it logs and goes on to the next, or it makes one, after some
-- messages, with the layout of the logger or with one of the manager.
pub data Equipping : Type 0 where
  skipped : (messages : List Statement) → Equipping
  equipped : (messages : List Statement) (own_pattern : Bool) → Equipping

unfoldable pub equip : ℕ → Equipping → List Act
unfolding read_logger write_logger get_layout_acts printing
equip l (Equipping.skipped messages) = in_turn statement messages
equip l (Equipping.equipped messages own_pattern) =
    in_turn statement messages
    ++ (read_logger l
        ++ (elim own_pattern [ true ↦ get_layout_acts | false ↦ read_logger l ] ++ write_logger l))

-- setupLogger, with whether the logger is there already and whether there is a pattern.
unfoldable pub setup_logger_acts : Bool → Bool → ℕ → List Equipping → List Act
unfolding get_logger_acts get_layout_acts write_logger equip
setup_logger_acts found own_pattern l appenders =
    get_logger_acts found l
    ++ (write_logger l
        ++ (write_logger l
            ++ (write_logger l
                ++ (elim own_pattern [ true ↦ get_layout_acts | false ↦ [] ]
                    ++ (write_logger l
                        ++ (write_logger l ++ (in_turn (equip l) appenders ++ write_logger l)))))))

-- What the listener of logs does for a name of the new value, and for one of the old value.
pub data Entry : Type 0 where
  refused : (message : Statement) → Entry
  kept : Entry
  set_up :
      (message : Statement) (found own_pattern : Bool) (l : ℕ) (appenders : List Equipping) → Entry
  dropped : (found : Bool) (l : ℕ) (message : Statement) → Entry

unfoldable pub entry_acts : Entry → List Act
unfolding printing setup_logger_acts get_logger_acts write_logger
entry_acts (Entry.refused message) = statement message
entry_acts Entry.kept = []
entry_acts (Entry.set_up message found own_pattern l appenders) =
    statement message ++ setup_logger_acts found own_pattern l appenders
entry_acts (Entry.dropped found l message) =
    get_logger_acts found l ++ (write_logger l ++ (write_logger l ++ statement message))

-- The logger of a statement, and a statement on `GET_LOGGER(name)`: the macro asks the manager for the
-- logger for its level, and again for the Warp and for the name.
abbrev pub target : Statement → ℕ
target (Statement.silent l) = l
target (Statement.written l appenders) = l
target (Statement.redirected l notice root appenders) = l

unfoldable pub named_statement : Bool → Statement → List Act
unfolding get_logger_acts printing
named_statement found s =
    get_logger_acts found (target s)
    ++ printing s (get_logger_acts true (target s) ++ get_logger_acts true (target s))

-- What a listener does, or the callback of Visit, or a program: log statements, setting loggers up and
-- down, `getLogger` and `getLayout` of the manager, and the operations of a logger, which are those that
-- read, those that write and `log`.
pub data Inner : Type 0 where
  logs : Statement → Inner
  logs_named : (found : Bool) → Statement → Inner
  configures : Entry → Inner
  asks_logger : (found : Bool) (l : ℕ) → Inner
  asks_layout : Inner
  reads_logger : (l : ℕ) → Inner
  writes_logger : (l : ℕ) → Inner
  logs_to : (l : ℕ) (appenders : List ℕ) → Inner

unfoldable pub inner : Inner → List Act
unfolding printing entry_acts named_statement get_logger_acts get_layout_acts read_logger
    write_logger log_to
inner (Inner.logs s) = statement s
inner (Inner.logs_named found s) = named_statement found s
inner (Inner.configures e) = entry_acts e
inner (Inner.asks_logger found l) = get_logger_acts found l
inner Inner.asks_layout = get_layout_acts
inner (Inner.reads_logger l) = read_logger l
inner (Inner.writes_logger l) = write_logger l
inner (Inner.logs_to l appenders) = log_to l appenders

unfoldable pub on_change_acts : Statement → List Entry → Statement → List Inner
on_change_acts loading entries loaded =
    Inner.logs loading ∷ (map Inner.configures entries ++ Inner.logs loaded ∷ [])

-- An operation of a ConfigVar: `fromNode` and `fromString` with what the listener does and, if an
-- exception is caught, the message; `setListener` and `removeListener`; `toNode`, `toString` and
-- `hasListener`, with the message.
unfoldable pub set_variable : ℕ → List Inner → List Act
unfolding inner
set_variable v body = within Mode.exclusive (LockName.variable v) (in_turn inner body)

unfoldable pub read_variable : ℕ → List Inner → List Act
unfolding inner
read_variable v body = within Mode.shared (LockName.variable v) (in_turn inner body)

abbrev pub Hit : Type 0
Hit = ℕ × List Inner

-- What the callback of Visit does with a variable.
pub data Visiting : Type 0 where
  reads : Hit → Visiting
  writes : Hit → Visiting

unfoldable pub visiting : Visiting → List Act
unfolding read_variable set_variable
visiting (Visiting.reads h) = read_variable h.0 h.1
visiting (Visiting.writes h) = set_variable h.0 h.1

-- LoadFromYaml, with the messages of TraversalYaml and the variables that nodes are found for; Visit; and
-- GetConfig.
unfoldable pub load_from_yaml_acts : List Statement → List Hit → List Act
unfolding printing set_variable
load_from_yaml_acts messages hits =
    within Mode.exclusive LockName.registry
      (in_turn statement messages ++ in_turn (λ h. set_variable h.0 h.1) hits)

unfoldable pub visit_acts : List Visiting → List Act
unfolding visiting
visit_acts vs = within Mode.shared LockName.registry (in_turn visiting vs)

unfoldable pub get_config_acts : List Hit → List Act
unfolding visit_acts
get_config_acts hits = within Mode.shared LockName.registry (visit_acts (map Visiting.reads hits))

-- The calls that a program makes. `create` ends in a statement, or finds a variable of another type,
-- whose value its statement prints. What a listener does is also a call of its own, of the log or from
-- `setValue`, which takes no lock.
pub data Call : Type 0 where
  load : List Statement → List Hit → Call
  save : List Hit → Call
  look : List Visiting → Call
  set : ℕ → List Inner → Call
  get : ℕ → List Inner → Call
  create : Statement → Call
  create_mismatch : (message : Statement) (v : ℕ) (failure : List Inner) → Call
  apply : Inner → Call

unfoldable pub acts : Call → List Act
unfolding load_from_yaml_acts get_config_acts visit_acts set_variable read_variable printing inner
acts (Call.load messages hits) = load_from_yaml_acts messages hits
acts (Call.save hits) = get_config_acts hits
acts (Call.look vs) = visit_acts vs
acts (Call.set v body) = set_variable v body
acts (Call.get v body) = read_variable v body
acts (Call.create message) = statement message
acts (Call.create_mismatch message v failure) = printing message (read_variable v failure)
acts (Call.apply i) = inner i
