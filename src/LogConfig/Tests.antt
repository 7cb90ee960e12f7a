-- ===== src/LogConfig/Tests.antt =====
-- The theorems about the configuration of loggers at concrete values.
use qc.Base.{
  zero, suc, Option, none, false, All, ℕ, ◌≡◌, refl, true, some, List, [], ◌∷◌, same, codes,
}
use qc.Log.{Level, Event}
use qc.Log.Delivery.{shares}
use qc.Log.Layout.{Platform}
use qc.Log.Logger.{console_appender, Logger, log}
use qc.Log.Manager.{Manager, lookup, new_manager}
use qc.Log.View.{find_logger, new_manager-Good}
use qc.Config.Converters.Insertion.{DistinctKeys}
use qc.LogConfig.{AppenderConfig, LogConfig, Configs, FileSystem, setup_logger}
use qc.LogConfig.Configured.{AllSet, all_made, known, read_layout}
use qc.LogConfig.Delivery.{setup_logger-log}
use qc.LogConfig.Listener.{AllLevels}
use qc.Config.{Values, ConfigVar}
use qc.LogConfig.History.{Settled}
use qc.LogConfig.Loading.{Happening, loaded, asked, happen, Proper, loads_configure}

-- There is one directory, and in it each file opens.
abbrev here : FileSystem
here = record { has_directory = λ path. same path (codes "./a.log"); can_open = λ path. true }

abbrev to_console : AppenderConfig
to_console = record {
  type = codes "ConsoleAppender";
  level = some Level.unknow;
  pattern = codes "%m%n";
  filename = [];
}

abbrev to_file : AppenderConfig
to_file = record {
  type = codes "FileAppender";
  level = some Level.warn;
  pattern = [];
  filename = codes "./a.log";
}

abbrev to_nowhere : AppenderConfig
to_nowhere = record {
  type = codes "SyslogAppender";
  level = some Level.warn;
  pattern = [];
  filename = [];
}

abbrev service : LogConfig
service = record {
  level = some Level.info;
  pattern = [];
  appenders = to_console ∷ to_nowhere ∷ to_file ∷ [];
}

abbrev plain : LogConfig
plain = record { level = some Level.unknow; pattern = codes "%m"; appenders = [] }

-- What a line shows of the machine.
abbrev machine : Platform
machine = record { decimal = λ n. n ∷ []; local_time = λ f t. f }

abbrev warning : Event
warning = record {
  filename = codes "main.cpp";
  level = Level.warn;
  line = 1;
  thread_id = 2;
  thread_name = [];
  coroutine_id = 0;
  elapse = 0;
  time = 9;
  name = codes "service";
  ss = codes "lost";
}

setup_logger-log_example :
    (m' : Manager) × (l : Logger) × (setup_logger here 4 (codes "service") service new_manager
      ≡ some m')
    × (find_logger (codes "service") m' ≡ some l)
    × (log machine l warning []
        ≡ some (
          true,
          shares machine
              (all_made here 4 service.appenders
                (known service.level new_manager.level)
                (read_layout service.pattern new_manager.layout))
              warning,
        ))
unfolding AllSet
setup_logger-log_example =
    setup_logger-log machine here 4 (codes "service") service new_manager new_manager-Good
      (tt, (tt, (tt, (tt, tt)))) warning []

-- One configuration goes, one comes, and one stays.
abbrev old_logs : Configs here
old_logs = (codes "a", plain) ∷ (codes "b", plain) ∷ []

abbrev new_logs : Configs here
new_logs = (codes "b", plain) ∷ (codes "service", service) ∷ []

-- A logger that writes to the console; a warning is logged to it after each call.
abbrev busy : Logger
busy = record {
  name = codes "service";
  level = some Level.debug;
  pattern = [];
  layout = some [];
  appenders = record (console_appender 1 Level.debug) { layout = some [] } ∷ [];
  valid = some true;
}

-- Node 0 cannot be converted, node 1 has two configurations, and any other drops one of them.
abbrev logs_nodes : ℕ → Option (Configs here)
logs_nodes zero = none
logs_nodes (suc zero) = some old_logs
logs_nodes (suc (suc n)) = some new_logs

abbrev logs_values : Values (Configs here) ℕ ℕ
logs_values = record {
  equal = λ x y. false;
  listener_throws = λ cb old_val new_val. false;
  convert = logs_nodes;
  is_null = λ node. false;
}

abbrev logs_variable : ConfigVar (Configs here) ℕ
logs_variable = record { name = codes "logs"; value = []; cb = some 7 }

abbrev happenings : List (Happening ℕ)
happenings = loaded 1 ∷ asked (codes "other") ∷ loaded 0 ∷ loaded 2 ∷ []

happenings-Proper : All (Proper here logs_values 4) happenings
unfolding AllSet AllLevels DistinctKeys
happenings-Proper = (
  ((refl, (refl, tt)), ((tt, tt), ((tt, tt), tt))),
  (tt, (tt, (((refl, (refl, tt)), ((tt, tt), ((tt, (tt, (tt, (tt, tt)))), tt))), tt))),
)

loads_configure_example :
    (v' : ConfigVar (Configs here) ℕ) × (m' : Manager) × (happen here logs_values 4 happenings
        logs_variable new_manager
      ≡ some (v', m'))
    × Settled here (codes "a") (lookup (codes "a") v'.value) (find_logger (codes "a") m')
loads_configure_example =
    loads_configure here logs_values 4 7 logs_variable happenings (codes "a") (λ x y. refl) refl
      refl happenings-Proper refl
