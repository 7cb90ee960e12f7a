-- ===== src/LogConfig/Interleaving.antt =====
-- src/config/log_config.cpp: setupLogger as the calls that it makes on the logger, between which other
-- threads log. Each call runs under the lock of the logger, as one step.
use qc.Base.{ℕ, suc, Bool, false, Option, some, List, [], ◌∷◌, map, ◌>>=◌}
use qc.Log.{Level, Event}
use qc.Log.Layout.{FormatItem, Platform}
use qc.Log.Logger
use qc.Log.Logger.{Appender, Logger, Output, log, has_layout}
use qc.Log.Manager.{Manager}
use qc.LogConfig.{LogConfig, FileSystem, or_pattern}
use qc.LogConfig.Configured.{known, read_layout, all_made}

-- The calls on a logger.
pub data Call : Type 0 where
  set_valid : Bool → Call
  set_level : Level → Call
  set_pattern : List ℕ → Call
  set_layout : List FormatItem → Call
  clear_appenders : Call
  add_appender : Appender → Call

abbrev pub perform : Call → Logger → Logger
perform (Call.set_valid b) l = Logger.set_valid b l
perform (Call.set_level lvl) l = Logger.set_level lvl l
perform (Call.set_pattern p) l = Logger.set_pattern p l
perform (Call.set_layout its) l = Logger.set_layout (some its) l
perform Call.clear_appenders l = Logger.clear_appenders l
perform (Call.add_appender a) l = Logger.add_appender a l

unfoldable pub perform_all : List Call → Logger → Logger
perform_all [] l = l
perform_all (c ∷ cs) l = perform_all cs (perform c l)

-- The calls of setupLogger before its last, which is `setValid(true)`.
abbrev pub setup_calls : FileSystem → ℕ → LogConfig → Manager → List Call
setup_calls fs address config m =
    Call.set_valid false
    ∷ Call.set_level (known config.level m.level)
    ∷ Call.set_pattern (or_pattern config.pattern m.pattern)
    ∷ Call.set_layout (read_layout config.pattern m.layout)
    ∷ Call.clear_appenders
    ∷ map (λ a. Call.add_appender a)
        (all_made fs address config.appenders (known config.level m.level)
          (read_layout config.pattern m.layout))

module _ (platform : Platform) where
  -- Events that other threads log to a logger, whatever it answers.
  unfoldable pub log_events : List Event → Logger → Output → Option Output
  log_events [] l w = some w
  log_events (e ∷ es) l w = do (valid, w') ← log platform l e w; log_events es l w'

  -- Calls in order, after each of which some events are logged: the `i`-th list of events after the
  -- `i`-th call.
  unfoldable pub interleaved :
      List Call → (ℕ → List Event) → Logger → Output → Option (Logger × Output)
  unfolding log_events
  interleaved [] events l w = some (l, w)
  interleaved (c ∷ cs) events l w = do
    w' ← log_events (events 0) (perform c l) w
    interleaved cs (λ i. events (suc i)) (perform c l) w'

  -- Calls that leave the logger as it is valid.
  unfoldable Keeps : List Call → Type 0
  Keeps [] = Unit
  Keeps (Call.set_valid b ∷ cs) = ⊥
  Keeps (c ∷ cs) = Keeps cs
