-- ===== src/LogConfig/Order.antt =====
-- src/config/log_config.cpp: the listener of logs and the order in which it goes through the values.
use qc.Base.{ℕ, ◌≡◌, sym, ap, ◌∙◌, some, List, same}
use qc.Log.Manager.{Manager, lookup, root_name}
use qc.Log.View.{Good, find_logger}
use qc.Config.Converters.{SameLookup}
use qc.Config.Converters.Insertion.{DistinctKeys}
use qc.LogConfig.{FileSystem, Configs, on_change}
use qc.LogConfig.Listener.{AllLevels}
use qc.LogConfig.Change.{changed, on_change-changed}

module _ (fs : FileSystem) where
  -- In a good manager, and where names are distinct and levels set: a change of the configuration comes
  -- to the same logger for each name, in whatever order the old and the new values are gone through.
  on_change_order :
      (address : ℕ) (old_val old_val' new_val new_val' : Configs fs) (m : Manager)
      → SameLookup old_val old_val'
      → SameLookup new_val new_val'
      → DistinctKeys old_val
      → DistinctKeys old_val'
      → DistinctKeys new_val
      → DistinctKeys new_val'
      → AllLevels fs old_val
      → AllLevels fs old_val'
      → AllLevels fs new_val
      → AllLevels fs new_val'
      → Good m
      → (m1 : Manager) × (m2 : Manager) × (on_change fs address old_val new_val m ≡ some m1)
        × (on_change fs address old_val' new_val' m ≡ some m2)
        × ((k : List ℕ) → find_logger k m1 ≡ find_logger k m2)
  on_change_order address old_val old_val' new_val new_val' m o n uo uo' un un' t t' s s' g =
      let (m1, e1, g1, h1) = on_change-changed fs address old_val new_val m uo un t s g in
      let (m2, e2, g2, h2) = on_change-changed fs address old_val' new_val' m uo' un' t' s' g in
      (
        m1,
        m2,
        e1,
        e2,
        λ k.
            h1 k
            ∙ ap (λ x. changed fs address (same k root_name) x (lookup k old_val) k m) (n k)
            ∙ ap (λ x. changed fs address (same k root_name) (lookup k new_val') x k m) (o k)
            ∙ sym (h2 k),
      )
