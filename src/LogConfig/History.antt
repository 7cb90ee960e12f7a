-- ===== src/LogConfig/History.antt =====
-- src/config/log_config.cpp: what any number of changes of the configuration leave behind.
use qc.Base.{
  ℕ, ◌≡◌, refl, sym, ap, ◌∙◌, subst, false, Option, none, some, List, [], inl, inr, Bool-cases,
  same, same_eq,
}
use qc.Log.Logger.{Logger}
use qc.Log.Manager.{Manager, lookup, get_logger, new_manager, root_name}
use qc.Log.View.{Good, find_logger, new_manager-Good}
use qc.Config.Converters.Insertion.{DistinctKeys}
use qc.LogConfig.{LogConfig, FileSystem, Configs, on_change}
use qc.LogConfig.Configured.{equal_config, configured}
use qc.LogConfig.Equality.{equal_config-eq}
use qc.LogConfig.Setup.{Defaults, get_logger-Defaults, configured_same}
use qc.LogConfig.Listener.{AllLevels}
use qc.LogConfig.Change.{changed, on_change-changed, from_found}
use qc.LogConfig.Kept.{
  Defaults-trans, stay, get_logger-Good, get_logger-there, get_logger-here, on_change-Defaults,
}

module _ (fs : FileSystem) where
  -- What `logs` may have come to with the loggers, from no configurations at all: by changes of the value,
  -- each with names that are distinct and levels that are set, and by requests for loggers in between.
  pub data Changes : Configs fs → Manager → Type 0 where
    started : Changes [] new_manager
    changes :
        {old_val : Configs fs} {m m' : Manager} (address : ℕ) (new_val : Configs fs)
        → Changes old_val m
        → DistinctKeys new_val
        → AllLevels fs new_val
        → on_change fs address old_val new_val m ≡ some m'
        → Changes new_val m'
    asks :
        {val : Configs fs} {m : Manager} (name : List ℕ)
        → Changes val m
        → Changes val (get_logger name m).1

  -- What a name other than the root's has by its configuration: the logger that this describes; without
  -- one, none or a logger that is not valid.
  abbrev pub Settled : List ℕ → Option LogConfig → Option Logger → Type 0
  Settled k none none = Unit
  Settled k none (some l) = l.valid ≡ some false
  Settled k (some c) none = ⊥
  Settled k (some c) (some l) = (address : ℕ) × (l ≡ configured fs address k c new_manager)

  asked-Settled :
      (k : List ℕ) (o : Option LogConfig) (found : Option Logger)
      → Settled k o found
      → Settled k o (some (from_found k found))
  asked-Settled k none none h = refl
  asked-Settled k none (some l) h = h
  asked-Settled k (some c) none h = absurd h
  asked-Settled k (some c) (some l) h = h

  record Fits (val : Configs fs) (m : Manager) : Type 0 where
    good : Good m
    distinct : DistinctKeys val
    levels : AllLevels fs val
    defaults : Defaults new_manager m
    settled : (k : List ℕ) → same k root_name ≡ false → Settled k (lookup k val) (find_logger k m)

  changed-Settled :
      (address : ℕ) (k : List ℕ) (n o : Option LogConfig) (m : Manager)
      → Defaults new_manager m
      → Settled k o (find_logger k m)
      → Settled k n (changed fs address false n o k m)
  changed-Settled address k none none m d h = h
  changed-Settled address k none (some old) m d h = refl
  changed-Settled address k (some c) none m d h =
      (address, configured_same fs address k c new_manager k m refl d)
  changed-Settled address k (some c) (some old) m d h = elim (Bool-cases (equal_config c old)) [
    | inl e ↦
        rw e (subst (λ x. Settled k (some x) (find_logger k m)) (sym (equal_config-eq c old e)) h)
    | inr e ↦ rw e (address, configured_same fs address k c new_manager k m refl d)
  ]

  started-Settled :
      (k : List ℕ) → same k root_name ≡ false → Settled k none (find_logger k new_manager)
  unfolding new_manager
  started-Settled k e = rw e tt

  Changes-Fits : {val : Configs fs} {m : Manager} → Changes val m → Fits val m
  unfolding DistinctKeys AllLevels
  Changes-Fits started = record {
    good = new_manager-Good;
    distinct = tt;
    levels = tt;
    defaults = stay new_manager;
    settled = started-Settled;
  }
  Changes-Fits (changes {old_val} {m} {m'} address new_val c un s e) =
      let f = Changes-Fits c in
      let (m2, e2, g2, h2) =
        on_change-changed fs address old_val new_val m f.distinct un f.levels s f.good in
      let last : m2 ≡ m' = cc (sym e2 ∙ e) in
      record {
        good = subst Good last g2;
        distinct = un;
        levels = s;
        defaults =
            Defaults-trans f.defaults
              (on_change-Defaults fs address old_val new_val m m' un f.levels s f.good e);
        settled = λ k r.
            subst (Settled k (lookup k new_val))
              (ap (λ b. changed fs address b (lookup k new_val) (lookup k old_val) k m) (sym r)
                ∙ sym (h2 k)
                ∙ ap (find_logger k) last)
              (changed-Settled address k (lookup k new_val) (lookup k old_val) m f.defaults
                (f.settled k r));
      }
  Changes-Fits (asks {val} {m} name c) =
      let f = Changes-Fits c in
      record {
        good = get_logger-Good name m f.good;
        distinct = f.distinct;
        levels = f.levels;
        defaults = Defaults-trans f.defaults (get_logger-Defaults name m).0;
        settled = λ k r. elim (Bool-cases (same k name)) [
          | inl q ↦
              subst (λ x. Settled x (lookup x val) (find_logger x (get_logger name m).1))
                (sym (same_eq k name q))
                (subst (Settled name (lookup name val)) (sym (get_logger-here name m)) (
                  asked-Settled name (lookup name val) (find_logger name m)
                    (f.settled name (sym (ap (λ x. same x root_name) (same_eq k name q)) ∙ r))))
          | inr q ↦
              subst (Settled k (lookup k val)) (sym (get_logger-there name k m f.good q))
                (f.settled k r)
        ];
      }

  -- The next change of the value succeeds.
  pub next_change :
      {old_val : Configs fs} {m : Manager} (address : ℕ) (new_val : Configs fs)
      → Changes old_val m
      → DistinctKeys new_val
      → AllLevels fs new_val
      → (m' : Manager) × (on_change fs address old_val new_val m ≡ some m') × Changes new_val m'
  next_change {old_val} {m} address new_val c un s =
      let f = Changes-Fits c in
      let (m', e, g, h) =
        on_change-changed fs address old_val new_val m f.distinct un f.levels s f.good in
      (m', e, changes address new_val c un s e)

  -- However often logs changes, with names that are distinct and levels that are set each time, and
  -- whatever loggers are asked for in between: every name in its value but the root's has the logger that
  -- its configuration describes, with the defaults of a new manager, and any other name but the root's
  -- has no logger or one that is not valid.
  pub configured_always :
      {val : Configs fs} {m : Manager} (k : List ℕ)
      → Changes val m
      → same k root_name ≡ false
      → Settled k (lookup k val) (find_logger k m)
  configured_always k c r = (Changes-Fits c).settled k r
