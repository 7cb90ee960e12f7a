-- ===== src/Thread/Handshake.antt =====
-- src/thread/thread.cpp: the constructor of a Thread and `run`, which the new thread executes, with the
-- names of both. Each side takes its steps in any interleaving; a call of the callback is one step.
use qc.Base.{
  ℕ, ◌-◌, ◌^◌, ◌≡◌, ◌≢◌, Bool, true, false, Option, none, some, List, [], ◌∷◌, ◌==◌, codes, take,
  if◌then◌else◌,
}
use qc.Semaphore.{
  System, Semaphore, returned, threw, wait_begin, wait_end, notify_begin, notify_end,
}
use qc.Thread.{State}

-- Where the constructor stands; a failed one has thrown a `std::logic_error`.
pub data Maker : Type 0 where
  creating counting waiting constructed failed : Maker

-- Where the new thread stands; `crashed` is an exception that leaves `run`.
pub data Body (F : Type 0) : Type 0 where
  unborn : Body F
  entering : Body F
  naming : Body F
  identifying : Body F
  indexing : Body F
  taking : Body F
  announcing : (cb : Option F) → Body F
  posting : (cb : Option F) → Body F
  calling : (cb : Option F) → Body F
  ending : Body F
  ended : Body F
  crashed : Body F

-- The members of the Thread, the thread-local variables of the new thread (`t_thread` tells whether
-- the pointer is to the Thread), the name that pthread_setname_np gave it, and where both sides stand.
pub record Birth (F Sem : Type 0) : Type 0 where
  pub m_cb : Option F
  pub m_name : List ℕ
  pub m_tid : Option ℕ
  pub m_state : State
  pub m_sem : Semaphore Sem
  pub t_thread : Bool
  pub t_name : List ℕ
  pub t_idx : ℕ
  pub system_name : List ℕ
  pub maker : Maker
  pub body : Body F

abbrev pub no_name : List ℕ
no_name = codes "NONE"

abbrev pub or_none : List ℕ → List ℕ
or_none [] = no_name
or_none (x ∷ xs) = x ∷ xs

module _ {F Sem : Type 0} where
  -- The constructor before it calls pthread_create.
  unfoldable pub prepare : Option F → List ℕ → Semaphore Sem → Birth F Sem
  prepare cb name sem = record {
    m_cb = cb;
    m_name = or_none name;
    m_tid = none;
    m_state = State.running;
    m_sem = sem;
    t_thread = false;
    t_name = no_name;
    t_idx = 2 ^ 64 - 1;
    system_name = [];
    maker = Maker.creating;
    body = Body.unborn;
  }

  -- pthread_create with its result.
  unfoldable pub create : ℕ → Birth F Sem → Birth F Sem
  create rt s =
      if rt == 0
      then record s { maker = Maker.counting; body = Body.entering }
      else record s { maker = Maker.failed }

  -- SetName and SetThreadIdx, in the new thread.
  unfoldable pub set_name : List ℕ → Birth F Sem → Birth F Sem
  set_name [] s = s
  set_name (x ∷ xs) s =
      let named = if s.t_thread then record s { m_name = x ∷ xs } else s in
      record named { t_name = x ∷ xs }

  unfoldable pub set_thread_idx : ℕ → Birth F Sem → Birth F Sem
  set_thread_idx idx s = record s { t_idx = idx }

-- How a callback ends; an empty one throws a `std::bad_function_call`.
pub data CallEnd (F : Type 0) : Type 0 where
  returns throws : CallEnd F

module _ {F : Type 0} (sys : System) where
  open sys use {Sem}

  -- The semaphore of the constructor: `wait`, which stays where it is while it has to wait.
  unfoldable pub make : Birth F Sem → Maker → Birth F Sem
  make s Maker.counting = record s { m_sem = wait_begin sys s.m_sem; maker = Maker.waiting }
  make s Maker.waiting = elim (wait_end sys s.m_sem) [
    | none ↦ s
    | some m ↦ record s { m_sem = m; maker = Maker.constructed }
  ]
  make s _ = s

  abbrev pub post : Birth F Sem → Option F → Birth F Sem
  post s cb = elim (notify_end sys s.m_sem) [
    | returned m ↦ record s { m_sem = m; body = Body.calling cb }
    | threw m ↦ record s { m_sem = m; body = Body.crashed }
  ]

  abbrev pub call_back : Birth F Sem → Option F → CallEnd F → Birth F Sem
  call_back s (some f) CallEnd.returns = record s { body = Body.ending }
  call_back s _ _ = record s { body = Body.crashed }

  -- `run`: the next step of the new thread, whose id in the system is `tid`.
  unfoldable pub run : ℕ → CallEnd F → Birth F Sem → Body F → Birth F Sem
  unfolding set_thread_idx
  run tid o s Body.unborn = s
  run tid o s Body.entering = record s { t_thread = true; body = Body.naming }
  run tid o s Body.naming = record s { t_name = s.m_name; body = Body.identifying }
  run tid o s Body.identifying = record s { m_tid = some tid; body = Body.indexing }
  run tid o s Body.indexing = record s {
    t_idx = 2 ^ 64 - 1;
    system_name = take 15 s.t_name;
    body = Body.taking;
  }
  run tid o s Body.taking = record s { m_cb = none; body = Body.announcing s.m_cb }
  run tid o s (Body.announcing cb) = record s {
    m_sem = notify_begin sys s.m_sem;
    body = Body.posting cb;
  }
  run tid o s (Body.posting cb) = post s cb
  run tid o s (Body.calling cb) = call_back s cb o
  run tid o s Body.ending = record s { m_state = State.terminated; body = Body.ended }
  run tid o s Body.ended = s
  run tid o s Body.crashed = s

  -- A state of the construction of a Thread with the callback and the name given. The callback may
  -- call SetName and SetThreadIdx.
  pub data Reach (cb : Option F) (name : List ℕ) (sem : Semaphore Sem) (tid : ℕ)
      : Birth F Sem → Type 0 where
    prepared : Reach cb name sem tid (prepare cb name sem)
    creates :
        {s : Birth F Sem} (rt : ℕ)
        → Reach cb name sem tid s
        → s.maker ≡ Maker.creating
        → Reach cb name sem tid (create rt s)
    makes :
        {s : Birth F Sem}
        → Reach cb name sem tid s
        → s.body ≢ Body.crashed
        → Reach cb name sem tid (make s s.maker)
    runs :
        {s : Birth F Sem} (o : CallEnd F)
        → Reach cb name sem tid s
        → Reach cb name sem tid (run tid o s s.body)
    renames :
        {s : Birth F Sem} {f : Option F} (n : List ℕ)
        → Reach cb name sem tid s
        → s.body ≡ Body.calling f
        → Reach cb name sem tid (set_name n s)
    reindexes :
        {s : Birth F Sem} {f : Option F} (idx : ℕ)
        → Reach cb name sem tid s
        → s.body ≡ Body.calling f
        → Reach cb name sem tid (set_thread_idx idx s)
