-- ===== src/Log/Macro.antt =====
-- include/qc/macro.h and include/qc/log/warp.h: a log statement, from its macro to what it writes, and
-- the assertion macros.
use qc.Base.{ℕ, Bool, true, false, Option, none, some, List, [], ◌∷◌, ◌++◌, codes, if◌then◌else◌}
use qc.Log.{Level, Event, new_event, format}
use qc.Log.Layout.{Platform}
use qc.Log.Logger.{Logger, Output}
use qc.Log.Manager.{passes, close_warp}

-- Where and when a statement runs: `__FILE__`, `__LINE__`, and what GetThreadId, GetThreadName,
-- GetCoroutineId and `time` return.
pub record Site : Type 0 where
  pub file : List ℕ
  pub line : ℕ
  pub thread_id : ℕ
  pub thread_name : List ℕ
  pub coroutine_id : ℕ
  pub now : ℕ

abbrev pub event_of : Site → Level → Logger → Event
event_of s level logger =
    new_event s.file s.line 0 s.thread_id s.thread_name s.coroutine_id s.now level logger.name

-- The values of a chain of `<<`, as they are printed.
unfoldable pub stream : List (List ℕ) → Event → Event
stream [] e = e
stream (text ∷ rest) e = stream rest (record e { ss = e.ss ++ text })

module _ (platform : Platform) (root_error : Event) (fuel : ℕ) (root : Logger) where
  -- The macros, with what the statement does to its event before the Warp is destroyed.
  unfoldable pub log_level :
      Logger → Level → Site → (Event → Event) → Output → Option (Option Output)
  log_level logger level site fill w = elim (passes logger level) [
    | none ↦ none
    | some false ↦ some (some w)
    | some true ↦
        close_warp platform root_error fuel root logger (fill (event_of site level logger)) w
  ]

  abbrev pub log_debug : Logger → Site → List (List ℕ) → Output → Option (Option Output)
  log_debug logger site texts = log_level logger Level.debug site (stream texts)

  abbrev pub log_info : Logger → Site → List (List ℕ) → Output → Option (Option Output)
  log_info logger site texts = log_level logger Level.info site (stream texts)

  abbrev pub log_warn : Logger → Site → List (List ℕ) → Output → Option (Option Output)
  log_warn logger site texts = log_level logger Level.warn site (stream texts)

  abbrev pub log_error : Logger → Site → List (List ℕ) → Output → Option (Option Output)
  log_error logger site texts = log_level logger Level.error site (stream texts)

  abbrev pub log_fatal : Logger → Site → List (List ℕ) → Output → Option (Option Output)
  log_fatal logger site texts = log_level logger Level.fatal site (stream texts)

  -- `Warp::format`, with what vasprintf makes of its arguments.
  unfoldable pub log_fmt_level :
      Logger → Level → Site → Option (List ℕ) → Output → Option (Option Output)
  unfolding log_level
  log_fmt_level logger level site buf = log_level logger level site (format buf)

  -- QC_ASSERT of a condition with its text, and the backtrace: what is written, and whether `assert`,
  -- unless NDEBUG is set, ends the program.
  unfoldable pub assert_that :
      Bool → Bool → List ℕ → Site → List ℕ → Output → Option (Option (Output × Bool))
  unfolding log_level stream
  assert_that ndebug true text site trace w = some (some (w, false))
  assert_that ndebug false text site trace w =
      elim (log_error root site
        (codes "ASSERTION: " ∷ (text ++ codes "\n") ∷ codes "Backtrace: \n" ∷ trace ∷ []) w) [
          | none ↦ none
          | some none ↦ some none
          | some (some v) ↦ some (some (v, if ndebug then false else true))
        ]
