-- ===== src/Locking/Tests.antt =====
-- The theorem about locks for two threads, and what some calls take.
use qc.Base.{ℕ, zero, suc, ◌≡◌, refl, false, List, [], ◌∷◌}
use qc.Locking.{Mode, LockName, Act, Statement, Entry, Equipping, Call, acts, on_change_acts}

-- A new value of logs makes logger 1, with one appender that takes the layout of the logger.
abbrev fresh_logger : List Entry
fresh_logger =
    Entry.set_up (Statement.silent 0) false false 1 (Equipping.equipped [] false ∷ []) ∷ []

-- Thread 0 loads logs, variable 0; the others save the configuration.
abbrev two_calls : ℕ → List Call
two_calls zero =
    Call.load []
      ((0, on_change_acts (Statement.silent 0) fresh_logger (Statement.written 0 (0 ∷ []))) ∷ [])
    ∷ []
two_calls (suc i) = Call.save ((0, []) ∷ []) ∷ []

save_takes :
    acts (Call.save ((0, []) ∷ []))
    ≡ Act.take Mode.shared LockName.registry
      ∷ (Act.take Mode.shared LockName.registry
          ∷ (Act.take Mode.shared (LockName.variable 0)
              ∷ (Act.release Mode.shared (LockName.variable 0)
                  ∷ (Act.release Mode.shared LockName.registry
                      ∷ (Act.release Mode.shared LockName.registry ∷ [])))))
unfolding acts
save_takes = refl
