-- ===== src/LogConfig/Change.antt =====
-- src/config/log_config.cpp: the loop over the old values, and a whole change of the configuration.
use qc.Base.{
  ℕ, ◌≡◌, refl, sym, ap, ◌∙◌, subst, Bool, true, false, Option, none, some, List, [], ◌∷◌,
  if◌then◌else◌, ◌>>=◌, if_pos, ℕ_discrete, inl, inr, Bool-cases, Option-cases, same, same_eq,
}
use qc.Log.Logger.{Logger, new_logger, clear_appenders, set_valid}
use qc.Log.Manager.{Manager, lookup, get_logger, root_name}
use qc.Log.Registry.{get_logger_found, get_logger_new}
use qc.Log.View.{
  Good, Cached, stored, find_logger, logger_or_new, logger_or_new-name, put_logger, put_logger-here,
  put_logger-there, put_logger-Good,
}
use qc.Config.Converters.Insertion.{DistinctKeys}
use qc.LogConfig.{LogConfig, FileSystem, Configs, drop_config, drop_configs, on_change}
use qc.LogConfig.Configured.{equal_config, configured}
use qc.LogConfig.Setup.{get_logger-Defaults}
use qc.LogConfig.Listener.{AllLevels, loaded, load_configs-Leaves}

abbrev pub from_found : List ℕ → Option Logger → Logger
from_found k none = set_valid false (new_logger k)
from_found k (some l) = l

-- The logger that `getLogger` gives for a name, by whether the name has one.
pub logger_or_new-from_found :
    (k : List ℕ) (m : Manager) → logger_or_new k m ≡ from_found k (find_logger k m)
logger_or_new-from_found k m = elim (Option-cases (lookup k m.loggers)) [
  | inl e ↦
      ap (λ (r : ℕ × Manager). r.1.store r.0) (get_logger_new k m e)
      ∙ if_pos (ℕ_discrete m.fresh m.fresh) refl (set_valid false (new_logger k)) (m.store m.fresh)
      ∙ ap (λ o. from_found k (stored m o)) (sym e)
  | inr (a, e) ↦
      ap (λ (r : ℕ × Manager). r.1.store r.0) (get_logger_found k m a e)
      ∙ ap (λ o. from_found k (stored m o)) (sym e)
]

-- A logger whose configuration is gone: not valid, and without appenders.
abbrev pub retired : List ℕ → Option Logger → Logger
retired k found = clear_appenders (set_valid false (from_found k found))

module _ (fs : FileSystem) where
  abbrev dropped :
      Bool → Option LogConfig → Option LogConfig → List ℕ → Option Logger → Option Logger
  dropped true n o k found = found
  dropped false (some c) o k found = found
  dropped false none none k found = found
  dropped false none (some c) k found = some (retired k found)

  module _ (new_val : Configs fs) where
    abbrev Drops : Manager → Manager → (List ℕ → Option Logger) → Type 0
    Drops m' m has = Good m' × ((k : List ℕ) → find_logger k m' ≡ has k)

    drop_config-Drops :
        (name : List ℕ) (m : Manager) (c : LogConfig)
        → Good m
        → Drops (drop_config fs new_val name m) m (λ k.
          if same k name
          then dropped (same k root_name) (lookup k new_val) (some c) k (find_logger k m)
          else find_logger k m)
    unfolding drop_config
    drop_config-Drops name m c g = elim (Bool-cases (same name root_name)) [
      | inl f ↦ rw f (
        g,
        λ k. elim (Bool-cases (same k name)) [
          | inl q ↦ rw q (
              ap (λ b. dropped b (lookup k new_val) (some c) k (find_logger k m))
                (sym (ap (λ x. same x root_name) (same_eq k name q) ∙ f)))
          | inr q ↦ rw q refl
        ],
      )
      | inr f ↦ elim (Option-cases (lookup name new_val)) [
        | inr (d, e) ↦
            rw (f, e)
              (
                g,
                λ k. elim (Bool-cases (same k name)) [
                  | inl q ↦ rw q (
                      ap (λ b. dropped b (some d) (some c) k (find_logger k m))
                        (sym (ap (λ x. same x root_name) (same_eq k name q) ∙ f))
                      ∙ ap (λ o. dropped (same k root_name) o (some c) k (find_logger k m))
                          (sym (ap (λ x. lookup x new_val) (same_eq k name q) ∙ e)))
                  | inr q ↦ rw q refl
                ],
              )
        | inl e ↦
            rw (f, e)
              (
                put_logger-Good name (clear_appenders (set_valid false (logger_or_new name m)))
                    (get_logger name m).1.layouts m g
                    (subst Cached (sym (get_logger-Defaults name m).1) g.cached)
                    (logger_or_new-name name m g),
                λ k. elim (Bool-cases (same k name)) [
                  | inl q ↦ rw q (
                      subst
                        (λ x.
                          find_logger x (
                            put_logger (get_logger name m).0
                              (clear_appenders (set_valid false (logger_or_new name m)))
                              (get_logger name m).1)
                          ≡ some (retired x (find_logger x m)))
                        (sym (same_eq k name q))
                        (put_logger-here name
                            (clear_appenders (set_valid false (logger_or_new name m))) m
                          ∙ ap (λ l. some (clear_appenders (set_valid false l)))
                              (logger_or_new-from_found name m))
                      ∙ ap (λ b. dropped b none (some c) k (find_logger k m))
                          (sym (ap (λ x. same x root_name) (same_eq k name q) ∙ f))
                      ∙ ap (λ o. dropped (same k root_name) o (some c) k (find_logger k m))
                          (sym (ap (λ x. lookup x new_val) (same_eq k name q) ∙ e)))
                  | inr q ↦ rw q (
                      put_logger-there name k
                        (clear_appenders (set_valid false (logger_or_new name m))) m g.sound q)
                ],
              )
      ]
    ]

    dropped-none :
        (b : Bool) (n : Option LogConfig) (k : List ℕ) (found : Option Logger)
        → dropped b n none k found ≡ found
    dropped-none true n k found = refl
    dropped-none false none k found = refl
    dropped-none false (some c) k found = refl

    drop_configs-Drops :
        (old_val : Configs fs) (m : Manager)
        → DistinctKeys old_val
        → Good m
        → Drops (drop_configs fs new_val old_val m) m (λ k.
          dropped (same k root_name) (lookup k new_val) (lookup k old_val) k (find_logger k m))
    unfolding drop_configs DistinctKeys
    drop_configs-Drops [] m u g =
        (g, λ k. sym (dropped-none (same k root_name) (lookup k new_val) k (find_logger k m)))
    drop_configs-Drops ((name, c) ∷ rest) m u g =
        let (g1, h1) = drop_config-Drops name m c g in
        let (g2, h2) = drop_configs-Drops rest (drop_config fs new_val name m) u.1 g1 in
        (
          g2,
          λ k. h2 k ∙ elim (Bool-cases (same k name)) [
            | inl f ↦ rw f (
                ap
                  (λ o.
                    dropped (same k root_name) (lookup k new_val) o k
                      (find_logger k (drop_config fs new_val name m)))
                  (ap (λ x. lookup x rest) (same_eq k name f) ∙ u.0)
                ∙ dropped-none (same k root_name) (lookup k new_val) k
                    (find_logger k (drop_config fs new_val name m))
                ∙ h1 k
                ∙ ap
                    (λ b.
                      if b
                      then dropped (same k root_name) (lookup k new_val) (some c) k
                          (find_logger k m)
                      else find_logger k m)
                    f)
            | inr f ↦ rw f (
                ap (dropped (same k root_name) (lookup k new_val) (lookup k rest) k) (
                  h1 k
                  ∙ ap
                      (λ b.
                        if b
                        then dropped (same k root_name) (lookup k new_val) (some c) k
                            (find_logger k m)
                        else find_logger k m)
                      f))
          ],
        )

  -- What a name has after a change, by whether it is the root's, its new and its old configuration.
  abbrev pub changed :
      ℕ → Bool → Option LogConfig → Option LogConfig → List ℕ → Manager → Option Logger
  changed address true n o k m = find_logger k m
  changed address false none none k m = find_logger k m
  changed address false none (some old) k m = some (retired k (find_logger k m))
  changed address false (some config) none k m = some (configured fs address k config m)
  changed address false (some config) (some old) k m =
      if equal_config config old then find_logger k m else some (configured fs address k config m)

  dropped-loaded :
      (address : ℕ) (old_val : Configs fs) (b : Bool) (n o : Option LogConfig) (k : List ℕ)
      (m : Manager)
      → lookup k old_val ≡ o
      → dropped b n o k (loaded fs address old_val b n k m) ≡ changed address b n o k m
  dropped-loaded address old_val true n o k m e = refl
  dropped-loaded address old_val false none none k m e = refl
  dropped-loaded address old_val false none (some old) k m e = refl
  dropped-loaded address old_val false (some config) none k m e = rw e refl
  dropped-loaded address old_val false (some config) (some old) k m e = rw e refl

  pub on_change-changed :
      (address : ℕ) (old_val new_val : Configs fs) (m : Manager)
      → DistinctKeys old_val
      → DistinctKeys new_val
      → AllLevels fs old_val
      → AllLevels fs new_val
      → Good m
      → (m' : Manager) × (on_change fs address old_val new_val m ≡ some m')
        × Good m'
        × ((k : List ℕ)
            → find_logger k m'
              ≡ changed address (same k root_name) (lookup k new_val) (lookup k old_val) k m)
  unfolding on_change
  on_change-changed address old_val new_val m uo un t s g =
      let (m1, e, g1, d, h1) = load_configs-Leaves fs address old_val new_val m un s t g in
      let (g2, h2) = drop_configs-Drops new_val old_val m1 uo g1 in
      (
        drop_configs fs new_val old_val m1,
        ap (λ r. r >>= λ x. some (drop_configs fs new_val old_val x)) e,
        g2,
        λ k.
            h2 k
            ∙ ap (dropped (same k root_name) (lookup k new_val) (lookup k old_val) k) (h1 k)
            ∙ dropped-loaded address old_val (same k root_name) (lookup k new_val)
                (lookup k old_val) k m refl,
      )
