-- ===== src/LogConfig/Delivery.antt =====
-- src/config/log_config.cpp with src/log/logger.cpp: the log of a logger that setupLogger has set up.
use qc.Base.{
  ℕ, suc, ◌≡◌, refl, ◌∙◌, true, ◌&&◌, some, List, [], ◌∷◌, ◌++◌, inl, inr, Bool-cases, same_refl,
}
use qc.Log.{Level, Event}
use qc.Log.Delivery.{Laid, shares, log-shares}
use qc.Log.Layout.{FormatItem, Platform}
use qc.Log.Logger.{Output, log, Logger}
use qc.Log.Manager.{Manager}
use qc.Log.View.{Good, find_logger}
use qc.LogConfig.{AppenderConfig, LogConfig, FileSystem, is_console, is_file, setup_logger}
use qc.LogConfig.Configured.{known, read_layout, configured, all_made, LevelsSet}
use qc.LogConfig.Setup.{setup_logger-configured}

pub Laid-all_made :
    (fs : FileSystem) (address : ℕ) (cs : List AppenderConfig) (lvl : Level) (its : List FormatItem)
    → Laid (all_made fs address cs lvl its)
unfolding Laid all_made
Laid-all_made fs address [] lvl its = tt
Laid-all_made fs address (c ∷ cs) lvl its = elim (Bool-cases (is_console c)) [
  | inl f ↦ rw f (refl, Laid-all_made fs (suc address) cs lvl its)
  | inr f ↦ elim (Bool-cases (is_file c && fs.has_directory c.filename)) [
    | inl g ↦ rw (f, g) (refl, Laid-all_made fs (suc address) cs lvl its)
    | inr g ↦ rw (f, g) (Laid-all_made fs (suc address) cs lvl its)
  ]
]

-- With a good manager and levels that are set: after setupLogger the logger of the name writes an event
-- once to each appender that the configuration describes, by its own level and if it is open, and is
-- not passed to the root logger.
pub setup_logger-log :
    (platform : Platform) (fs : FileSystem) (address : ℕ) (name : List ℕ) (config : LogConfig)
    (m : Manager)
    → Good m
    → LevelsSet config
    → (e : Event) (w : Output)
    → (m' : Manager) × (l : Logger) × (setup_logger fs address name config m ≡ some m')
      × (find_logger name m' ≡ some l)
      × (log platform l e w
          ≡ some (
            true,
            w
                ++ shares platform
                    (all_made fs address config.appenders
                      (known config.level m.level)
                      (read_layout config.pattern m.layout))
                    e,
          ))
setup_logger-log platform fs address name config m g s e w =
    let (m', eq, g', d, h) = setup_logger-configured fs address name config m g s in
    let l : Logger = configured fs address name config m in
    (
      m',
      l,
      eq,
      h name ∙ rw (same_refl name) refl,
      log-shares platform l e w refl (
          Laid-all_made fs address config.appenders (known config.level m.level)
            (read_layout config.pattern m.layout)),
    )
