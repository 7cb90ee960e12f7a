-- ===== src/Lib.antt =====
-- Qc is a C++ library of coroutines, threads, logging and configuration. This library models its
-- core and proves what its parts promise.
--
-- The parts and their files:
-- - LockFreeQueue: include/qc/thread/lockfreequeue.h, the queue of Michael and Scott. Machine has
--   the memory of nodes, where each thread stands (Pc) and one step for each atomic access (Move)
--   of enqueue, dequeue and empty; any number of threads take steps in any order (Step, Reach).
--   Invariant, Moves and Preserve hold the invariant, Contents and History the list that the
--   queue stands for, Deletion the life of nodes, Alone and Calls the calls that run undisturbed,
--   Rank and Progress the steps of threads that get in each other's way, Accounting where each
--   node is, Destruction the destructor (destroy). There no address is handed out twice; Reuse has
--   the runs in which new may give a deleted node again and deleted memory may change (Usage),
--   and takes the results over to those of them in which this does not happen (NoReuse).
-- - Coroutine: src/coroutine/coroutine.cpp. construct, destruct, resume, yield and reset keep
--   their names; enter is resume up to the switch of context, finish the end of trampoline. What
--   the callback does between two switches is an argument (Outcome). A failed assertion is none.
-- - Semaphore: src/thread/semaphore.cpp over the semaphores of the system (System). wait and notify
--   are two steps each, wait_begin and wait_end, notify_begin and notify_end. Accounting counts the
--   calls of any threads.
-- - Locks: include/qc/thread/mutex.h and include/qc/thread/scopedlock.h over the locks of pthread
--   (LockSystem, RwLockSystem). Lockable and SharedLockable are what the templates ask of a lock;
--   scope, read_scope and write_scope are the constructors of ScopedLock, ReadLock and WriteLock,
--   unscope, read_unscope and write_unscope the destructors. Scoped and Shared have any threads
--   make and destroy such objects; Scoped does so over any lock that is Exclusive, and Classes
--   says which classes are.
-- - Thread: src/thread/thread.cpp, the state m_state and the pthread calls that it leads to:
--   construct, join, detach, destroy (the destructor), finish (the last assignment of run),
--   with Release about them; and abstime, which Deadline is about. Handshake has the
--   constructor (prepare, create, make) and run in the steps of the two threads, with set_name
--   and set_thread_idx; Level, Ready and Returns are about the end of the constructor.
-- - ConditionVariable: src/thread/conditionvariable.cpp over the condition variables of pthread
--   (CondSystem). wait_for keeps its name, wait_for_milliseconds is waitFor, wait_untimed is wait,
--   idle_wait that of a worker without a task; Timeout is about these.
-- - Utils: src/utils.cpp, Backtrace (trace, with push_symbols for its loop) and BacktraceToString.
-- - Scheduler: src/scheduler/scheduler.cpp. A worker is a state machine (Worker, work) with a
--   state between any two accesses to a queue in run, pickTask and getIdleCoroutine; place is
--   execute after its test of m_stopped. The queues are lists with atomic operations, as
--   LockFreeQueue refines them to while no deleted node is used again, and coroutines are
--   those of Coroutine, at addresses. Invariant, Preserve, PreserveCoros, Steps and Safety say
--   where coroutines can be, Weight, Balance and Conservation account for the callbacks of
--   tasks, Race looks at the pool. Cover says which queues a worker will yet look at after
--   stop, Keep, Sweep and Steady what a step does to that, Drain what is left at the end;
--   Rank, Fall and Winding bound the steps after stop, Late is about tasks that come too late.
--   Life has start, stop and the destructor with the threads that they make and join, Joining
--   is about these. Entering has the start of run (enter_run) and the names of the threads.
-- - Log: src/log. Log has events (event.cpp), Layout the patterns (layout.cpp: init and the
--   classes of FormatItem), Logger the loggers and appenders (logger.cpp, appender.cpp), Manager
--   the registry and the wrapper of one message (manager.cpp, warp.cpp), Macro the macros of
--   include/qc/macro.h over these. Layout/Reading and Layout/RoundTrip are about patterns,
--   Delivery about what is written, Statement about a whole log statement, Registry and View about
--   names, Default about the default pattern.
-- - Config: src/config/config.cpp and include/qc/config/config.h. traversal_yaml is TraversalYaml
--   with each for its loop, load_nodes the loop of LoadFromYaml, set_value, from_node and
--   from_string are of a ConfigVar, with the calls of listeners as a list. Traversal is about the
--   nodes listed, Variables about what loading leaves. Registry has Create, LookupBase, Visit and
--   GetConfig (create, lookup_base, visit, get_config in Registry/Saved). Node has the nodes of
--   yaml-cpp as a parameter with laws, and Tree concrete ones. Converters has the converters of
--   containers: encode_ and decode_ with the name of the container, where decode_ is as<T>, none
--   if it throws; an unordered container is a list up to its order. Insertion, RoundTrip and
--   Unordered are about what is read back.
-- - LogConfig: src/config/log_config.cpp and include/qc/config/log_config.h. setup_logger is
--   setupLogger with add_appenders for its loop, on_change the listener of logs with
--   load_configs and drop_configs for its two loops, same_config the operator==. Configured says
--   which logger a configuration describes, Setup, Listener and Change are about setupLogger,
--   the first loop and the whole listener, Order about the order of the values, Equality about
--   the comparison of configurations, Kept about what a change leaves as it was, History about
--   any number of changes, Loading about the variable with the manager (happen), Delivery about
--   the log of a logger so made, Interleaving about what is logged while setupLogger runs
--   (setup_calls). Codec has the converters of AppenderConfig and LogConfig, and below it
--   RoundTrip and Refusal.
-- - Locking: the locks of src/config, src/log and include/qc/macro.h together. Each operation is
--   the list of locks that it takes and releases, with what its branches depend on as arguments;
--   a name that another file has for the operation ends in _acts here (load_from_yaml_acts,
--   visit_acts, get_config_acts, setup_logger_acts, on_change_acts), set_variable and
--   read_variable are the operations of a ConfigVar, statement is a log statement, printing one
--   whose values take locks, equip and entry_acts are the turns of the loops of setupLogger and
--   of the listener. Threads has the steps of threads, Order the order of the locks, Calls the
--   operations in it, Invariant is about who has which lock, Progress about threads that wait.
-- - Base: shared names, Boolean tests, families with one changed index, sums, lists over numbers.
--
-- How they interact: a worker of the scheduler takes tasks from the queues, makes or reuses
-- coroutines for them and resumes these; a coroutine's id is in every log event; a message
-- reaches the appenders of its logger, or the root logger's. The value of logs is decoded from a
-- node by the converters and sets up and retires the loggers of the manager, while the locks of
-- the registry and of the variable are held.
--
-- Numbers are natural numbers; uint64_t ids and counts wrap modulo 2 ^ 64, the 32-bit fields of
-- an event modulo 2 ^ 32. Strings are lists of bytes. There is fuel in four places: the loop of
-- Layout::init, where the length of the pattern is enough, the destructor of the queue, where two
-- more than the number of values is enough, the recursion of the destructor of Warp, where 2 is
-- enough if the root logger is valid, and TraversalYaml, where more than the height of the tree
-- is enough.
--
-- Of outside code the model takes as parameters: decimal and local_time for what the C++
-- library prints, whether a directory can be made and a file opens, what vasprintf makes, the
-- results of pthread calls, what a dynamic cast says, and the nodes of yaml-cpp, with what
-- that library documents of sequences, maps and scalars, the semaphores, locks and condition
-- variables of the system, with what POSIX documents of them but for calls that a signal
-- interrupts and for a thread that locks what it has exclusively, or exclusively what it has,
-- and the backtrace functions. A level that nothing has set, or that is none of the
-- enumerators, is none; where the code reads one there is no result. Memory is sequentially
-- consistent. A node of the queue that is deleted keeps its contents but where Reuse says
-- otherwise. Tasks with a coroutine that come from outside, and a second start, are not among
-- the steps of the workers.
--
-- Not modelled: the switch of contexts itself, what the messages say that the configuration, the
-- scheduler and the threads log, and the programs of test/.
pub mod Base
pub mod LockFreeQueue
pub mod Coroutine
pub mod Semaphore
pub mod Locks
pub mod Thread
pub mod ConditionVariable
pub mod Utils
pub mod Scheduler
pub mod Log
pub mod Config
pub mod LogConfig
pub mod Locking
