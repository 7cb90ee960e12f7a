-- ===== src/LogConfig/Setup.antt =====
-- src/config/log_config.cpp: setupLogger and the logger that a configuration describes.
use mathlib.Core.List.{append-nil, append_assoc}
use qc.Base.{
  ℕ, suc, ◌≡◌, refl, sym, ap, ◌∙◌, subst, true, false, ◌&&◌, Option, none, some, List, [], ◌∷◌,
  ◌++◌, if◌then◌else◌, ◌>>=◌, inl, inr, Bool-cases, Option-cases, same, same_eq,
}
use qc.Log.{Level}
use qc.Log.Layout.{FormatItem}
use qc.Log.Logger.{
  Appender, Logger, console_appender, file_appender, add_appender, clear_appenders, set_level,
  set_pattern, set_layout, set_valid,
}
use qc.Log.Manager.{Manager, lookup, get_logger}
use qc.Log.Registry.{get_logger_found, get_logger_new}
use qc.Log.View.{
  Cached, Good, find_logger, logger_or_new, put_logger, get_layout-Cached, logger_or_new-name,
  put_logger-here, put_logger-there, put_logger-Good,
}
use qc.LogConfig.{
  AppenderConfig, LogConfig, FileSystem, is_console, is_file, or_level, or_layout, or_pattern,
  fit_appender, make_appender, add_made, add_appenders, setup_logger,
}
use qc.LogConfig.Configured.{
  known, read_layout, fitted, made, all_made, configured, HasLevel, AllSet, LevelsSet,
}

abbrev Layouts : Type 0
Layouts = List (List ℕ × List FormatItem)

or_level-known : (o : Option Level) (lvl : Level) → HasLevel o → or_level o lvl ≡ some (known o lvl)
or_level-known none lvl h = absurd h
or_level-known (some Level.unknow) lvl h = refl
or_level-known (some l) lvl h = refl

or_layout-Cached :
    (p : List ℕ) (its : List FormatItem) (m : Manager)
    → Cached m.layouts
    → (ls : Layouts) × (or_layout p its m ≡ (read_layout p its, record m { layouts = ls }))
      × Cached ls
or_layout-Cached [] its m c = (m.layouts, refl, c)
or_layout-Cached (x ∷ p) its m c = get_layout-Cached (x ∷ p) m c

fit_appender-Cached :
    (c : AppenderConfig) (lvl : Level) (its : List FormatItem) (a : Appender) (m : Manager)
    → HasLevel c.level
    → Cached m.layouts
    → (ls : Layouts) × (fit_appender c lvl its a m
        ≡ some (some (fitted c lvl its a), record m { layouts = ls }))
      × Cached ls
unfolding fit_appender
fit_appender-Cached c lvl its a m s h =
    let (ls, e, k) = or_layout-Cached c.pattern its m h in
    (ls, rw (or_level-known c.level lvl s, e) refl, k)

module _ (fs : FileSystem) where
  abbrev Makes : ℕ → AppenderConfig → Level → List FormatItem → Logger → Manager → Type 0
  Makes address c lvl its l m =
      (ls : Layouts) × (r : Option Appender) × (make_appender fs address c lvl its m
        ≡ some (r, record m { layouts = ls }))
      × Cached ls
      × (add_made fs r l ≡ record l { appenders = l.appenders ++ made fs address c lvl its })

  make_appender-made :
      (address : ℕ) (c : AppenderConfig) (lvl : Level) (its : List FormatItem) (l : Logger)
      (m : Manager)
      → HasLevel c.level
      → Cached m.layouts
      → Makes address c lvl its l m
  unfolding make_appender add_appender
  make_appender-made address c lvl its l m s h =
      let (ls, e, k) = fit_appender-Cached c lvl its (console_appender address lvl) m s h in
      let (ls', e', k') =
        fit_appender-Cached c lvl its (file_appender address fs.can_open c.filename lvl) m s h in
      elim (Bool-cases (is_console c)) [
        | inl f ↦ rw f (ls, some (fitted c lvl its (console_appender address lvl)), e, k, refl)
        | inr f ↦ elim (Bool-cases (is_file c && fs.has_directory c.filename)) [
          | inl g ↦
              rw (f, g)
                (
                  ls',
                  some (fitted c lvl its (file_appender address fs.can_open c.filename lvl)),
                  e',
                  k',
                  refl,
                )
          | inr g ↦
              rw (f, g)
                (
                  m.layouts,
                  none,
                  refl,
                  h,
                  ap (λ as'. record l { appenders = as' }) (sym (append-nil l.appenders)),
                )
        ]
      ]

  add_appenders-all_made :
      (address : ℕ) (cs : List AppenderConfig) (lvl : Level) (its : List FormatItem) (l : Logger)
      (m : Manager)
      → AllSet cs
      → Cached m.layouts
      → (ls : Layouts) × (add_appenders fs address cs lvl its l m
          ≡ some (
            record l { appenders = l.appenders ++ all_made fs address cs lvl its },
            record m { layouts = ls },
          ))
        × Cached ls
  unfolding add_appenders all_made AllSet
  add_appenders-all_made address [] lvl its l m s h = (
    m.layouts,
    ap (λ as'. some (record l { appenders = as' }, m)) (sym (append-nil l.appenders)),
    h,
  )
  add_appenders-all_made address (c ∷ cs) lvl its l m s h =
      let (ls, r, e, k, f) = make_appender-made address c lvl its l m s.0 h in
      let m' : Manager = record m { layouts = ls } in
      let l' : Logger = record l { appenders = l.appenders ++ made fs address c lvl its } in
      let (ls', e', k') = add_appenders-all_made (suc address) cs lvl its l' m' s.1 k in
      (
        ls',
        ap (λ r. r >>= λ z. add_appenders fs (suc address) cs lvl its (add_made fs z.0 l) z.1) e
            ∙ ap (λ x. add_appenders fs (suc address) cs lvl its x m') f
            ∙ e'
            ∙ ap (λ as'. some (record l { appenders = as' }, record m { layouts = ls' }))
                (append_assoc l.appenders (made fs address c lvl its)
                  (all_made fs (suc address) cs lvl its)),
        k',
      )

-- The defaults of the manager stay.
pub record Defaults (m m' : Manager) : Type 0 where
  pub level : m'.level ≡ m.level
  pub pattern : m'.pattern ≡ m.pattern
  pub layout : m'.layout ≡ m.layout

pub get_logger-Defaults :
    (name : List ℕ) (m : Manager)
    → Defaults m (get_logger name m).1 × ((get_logger name m).1.layouts ≡ m.layouts)
get_logger-Defaults name m = elim (Option-cases (lookup name m.loggers)) [
  | inl e ↦
      rw (get_logger_new name m e) (record { level = refl; pattern = refl; layout = refl }, refl)
  | inr (a, e) ↦
      rw (get_logger_found name m a e)
        (record { level = refl; pattern = refl; layout = refl }, refl)
]

module _ (fs : FileSystem) (address : ℕ) (name : List ℕ) (config : LogConfig) (m : Manager) where
  abbrev pub configured_with : List ℕ → Level → List ℕ → List FormatItem → Logger
  configured_with n lvl pattern its = record {
    name = n;
    level = some (known config.level lvl);
    pattern = or_pattern config.pattern pattern;
    layout = some (read_layout config.pattern its);
    appenders =
        all_made fs address config.appenders (known config.level lvl)
          (read_layout config.pattern its);
    valid = some true;
  }

  pub configured_same :
      (n : List ℕ) (m' : Manager)
      → n ≡ name
      → Defaults m m'
      → configured_with n m'.level m'.pattern m'.layout ≡ configured fs address name config m
  configured_same n m' e d =
      ap (λ x. configured_with x m'.level m'.pattern m'.layout) e
      ∙ ap (λ x. configured_with name x m'.pattern m'.layout) d.level
      ∙ ap (λ x. configured_with name m.level x m'.layout) d.pattern
      ∙ ap (λ x. configured_with name m.level m.pattern x) d.layout

  setup_logger-Good :
      Good m
      → LevelsSet config
      → (m' : Manager) × (setup_logger fs address name config m ≡ some m')
        × Good m'
        × Defaults m m'
        × (find_logger name m' ≡ some (configured fs address name config m))
        × ((k : List ℕ) → same k name ≡ false → find_logger k m' ≡ find_logger k m)
  unfolding setup_logger
  setup_logger-Good g s =
      let m1 : Manager = (get_logger name m).1 in
      let a : ℕ = (get_logger name m).0 in
      let d : Defaults m m1 = (get_logger-Defaults name m).0 in
      let c1 : Cached m1.layouts = subst Cached (sym (get_logger-Defaults name m).1) g.cached in
      let (ls, e, k) = or_layout-Cached config.pattern m1.layout m1 c1 in
      let lvl : Level = known config.level m1.level in
      let its : List FormatItem = read_layout config.pattern m1.layout in
      let l1 : Logger = clear_appenders (
        set_layout (some its) (
          set_pattern (or_pattern config.pattern m1.pattern)
            (set_level lvl (set_valid false (m1.store a))))) in
      let (ls', e', k') =
        add_appenders-all_made fs address config.appenders lvl its l1 (record m1 { layouts = ls })
          s.1 k in
      let l : Logger = configured_with (logger_or_new name m).name m1.level m1.pattern m1.layout in
      let q : l ≡ configured fs address name config m =
        configured_same (logger_or_new name m).name m1 (logger_or_new-name name m g) d in
      let m' : Manager = record (put_logger a l m1) { layouts = ls' } in
      (
        m',
        rw (or_level-known config.level m1.level s.0, e, e') refl,
        put_logger-Good name l ls' m g k' (logger_or_new-name name m g),
        record { level = d.level; pattern = d.pattern; layout = d.layout },
        put_logger-here name l m ∙ ap some q,
        λ k ne. put_logger-there name k l m g.sound ne,
      )

  pub setup_logger-configured :
      Good m
      → LevelsSet config
      → (m' : Manager) × (setup_logger fs address name config m ≡ some m')
        × Good m'
        × Defaults m m'
        × ((k : List ℕ)
            → find_logger k m'
              ≡ (if same k name then some (configured fs address k config m) else find_logger k m))
  setup_logger-configured g s =
      let (m', e, g', d, here, there) = setup_logger-Good g s in
      (
        m',
        e,
        g',
        d,
        λ k. elim (Bool-cases (same k name)) [
          | inl f ↦ rw f (
              subst (λ n. find_logger n m' ≡ some (configured fs address n config m))
                (sym (same_eq k name f)) here)
          | inr f ↦ rw f (there k f)
        ],
      )
