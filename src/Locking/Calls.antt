-- ===== src/Locking/Calls.antt =====
-- Each operation of the configuration and of the log takes its locks in the order of Order.
use qc.Base.{map, ◌≤◌, In, refl, subst, ℕ, Bool, true, false, List, [], arith}
use mathlib.Core.List.{append-nil}
use qc.Locking.{
  Mode, LockName, Act, in_turn, Statement, Equipping, Entry, Inner, Call, write_out, log_to,
  read_logger, write_logger, statement, printing, Visiting, visiting, get_logger_acts,
  get_layout_acts, equip, setup_logger_acts, entry_acts, inner, named_statement, target,
  set_variable, read_variable, load_from_yaml_acts, visit_acts, get_config_acts, acts,
}
use qc.Locking.Order.{rank, Fine, Above, nothing, both, lower, in_turn-Above, scoped, twice}

logger_read : (l : ℕ) → Above 3 (read_logger l)
unfolding read_logger rank
logger_read l = scoped Mode.shared (LockName.logger l) (omega arith) nothing

logger_written : (l : ℕ) → Above 3 (write_logger l)
unfolding write_logger rank
logger_written l = scoped Mode.exclusive (LockName.logger l) (omega arith) nothing

delivered : (l : ℕ) (appenders : List ℕ) → Above 3 (log_to l appenders)
unfolding log_to write_out rank
delivered l appenders = scoped Mode.shared (LockName.logger l) (omega arith) (
    in_turn-Above appenders
      (λ a. scoped Mode.exclusive (LockName.appender a) (omega arith) nothing))

printed :
    {b : ℕ} {values : List Act}
    → b ≤ 3
    → (s : Statement) → Above b values
    → Above b (printing s values)
unfolding printing
printed le (Statement.silent l) v = lower le (logger_read l)
printed le (Statement.written l appenders) v =
    both (lower le (logger_read l)) (both v (lower le (delivered l appenders)))
printed le (Statement.redirected l notice root appenders) v = both (lower le (logger_read l)) (
    both v (
      both (lower le (delivered l []))
        (both (printed le notice nothing) (lower le (delivered root appenders)))))

logged : (s : Statement) → Above 3 (statement s)
logged s = printed (omega arith) s nothing

-- Calls of the manager, and all that a listener may make of them.
from_manager : {xs : List Act} → Above 3 xs → Above 2 xs
from_manager = lower (omega arith)

logger_found : (found : Bool) (l : ℕ) → Above 2 (get_logger_acts found l)
unfolding get_logger_acts rank
logger_found true l = scoped Mode.exclusive LockName.manager (omega arith) nothing
logger_found false l = scoped Mode.exclusive LockName.manager (omega arith) (logger_written l)

layout_found : Above 2 get_layout_acts
unfolding get_layout_acts rank
layout_found = scoped Mode.exclusive LockName.manager (omega arith) nothing

all_logged : (messages : List Statement) → Above 2 (in_turn statement messages)
all_logged messages = in_turn-Above messages (λ s. from_manager (logged s))

equip-Above : (l : ℕ) (e : Equipping) → Above 2 (equip l e)
unfolding equip
equip-Above l (Equipping.skipped messages) = all_logged messages
equip-Above l (Equipping.equipped messages true) =
    both (all_logged messages)
      (both (from_manager (logger_read l)) (both layout_found (from_manager (logger_written l))))
equip-Above l (Equipping.equipped messages false) = both (all_logged messages) (
    both (from_manager (logger_read l))
      (both (from_manager (logger_read l)) (from_manager (logger_written l))))

pattern_found :
    (own_pattern : Bool) → Above 2 (elim own_pattern [ true ↦ get_layout_acts | false ↦ [] ])
pattern_found true = layout_found
pattern_found false = nothing

setup_logger_acts-Above :
    (found own_pattern : Bool) (l : ℕ) (appenders : List Equipping)
    → Above 2 (setup_logger_acts found own_pattern l appenders)
unfolding setup_logger_acts
setup_logger_acts-Above found own_pattern l appenders =
    let written = from_manager (logger_written l) in
    both (logger_found found l) (
      both written (
        both written (
          both written (
            both (pattern_found own_pattern) (
              both written
                (both written (both (in_turn-Above appenders (equip-Above l)) written)))))))

named : (found : Bool) (s : Statement) → Above 2 (named_statement found s)
unfolding named_statement
named found s =
    let again = logger_found true (target s) in
    both (logger_found found (target s)) (printed (omega arith) s (both again again))

inner-Above : (i : Inner) → Above 2 (inner i)
unfolding inner entry_acts
inner-Above (Inner.logs s) = from_manager (logged s)
inner-Above (Inner.logs_named found s) = named found s
inner-Above (Inner.asks_logger found l) = logger_found found l
inner-Above Inner.asks_layout = layout_found
inner-Above (Inner.reads_logger l) = from_manager (logger_read l)
inner-Above (Inner.writes_logger l) = from_manager (logger_written l)
inner-Above (Inner.logs_to l appenders) = from_manager (delivered l appenders)
inner-Above (Inner.configures (Entry.refused s)) = from_manager (logged s)
inner-Above (Inner.configures Entry.kept) = nothing
inner-Above (Inner.configures (Entry.set_up s found own_pattern l appenders)) =
    both (from_manager (logged s)) (setup_logger_acts-Above found own_pattern l appenders)
inner-Above (Inner.configures (Entry.dropped found l s)) =
    let written = from_manager (logger_written l) in
    both (logger_found found l) (both written (both written (from_manager (logged s))))

variable_set : (v : ℕ) (body : List Inner) → Above 1 (set_variable v body)
unfolding set_variable rank
variable_set v body =
    scoped Mode.exclusive (LockName.variable v) (omega arith) (in_turn-Above body inner-Above)

variable_read : (v : ℕ) (body : List Inner) → Above 1 (read_variable v body)
unfolding read_variable rank
variable_read v body =
    scoped Mode.shared (LockName.variable v) (omega arith) (in_turn-Above body inner-Above)

from_registry : {b : ℕ} {xs : List Act} → Above b xs → Above 0 xs
from_registry = lower (omega arith)

visited : (v : Visiting) → Above 1 (visiting v)
unfolding visiting
visited (Visiting.reads h) = variable_read h.0 h.1
visited (Visiting.writes h) = variable_set h.0 h.1

acts-Above : (c : Call) → Above 0 (acts c)
unfolding acts load_from_yaml_acts visit_acts get_config_acts rank
acts-Above (Call.load messages hits) = scoped Mode.exclusive LockName.registry (omega arith) (
    both (lower (omega arith) (all_logged messages))
      (in_turn-Above hits (λ h. variable_set h.0 h.1)))
acts-Above (Call.save hits) =
    twice LockName.registry (in_turn-Above (map Visiting.reads hits) visited)
acts-Above (Call.look vs) =
    scoped Mode.shared LockName.registry (omega arith) (in_turn-Above vs visited)
acts-Above (Call.set v body) = from_registry (variable_set v body)
acts-Above (Call.get v body) = from_registry (variable_read v body)
acts-Above (Call.create message) = from_registry (logged message)
acts-Above (Call.create_mismatch message v failure) =
    printed (omega arith) message (from_registry (variable_read v failure))
acts-Above (Call.apply i) = from_registry (inner-Above i)

-- A thread that makes calls one after the other takes and releases all its locks in order.
pub calls-Fine : (calls : List Call) → Fine [] (in_turn acts calls)
unfolding Fine In
calls-Fine calls =
    subst (Fine []) (append-nil (in_turn acts calls))
      ((in_turn-Above calls acts-Above).stands [] [] (λ h i. absurd i) refl)
