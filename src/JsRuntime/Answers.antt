-- ===== src/JsRuntime/Answers.antt =====
-- What the answers of an execution say about it, in every interleaving of the two threads.
use retrack.Prelude.{
  ℕ, ◌+◌, ◌<◌, ◌≡◌, refl, subst, Bool, true, false, ◌||◌, Option, none, some, arith,
}
use retrack.Scheduler.RetryStrategy.{Duration}
use retrack.JsRuntime.{
  ScriptExecutionStatus, running, reached_memory_limit, reached_time_limit, execution_completed,
  code, from, is_running, context_of, sleep_time, Limit, memory_limit, time_limit,
}
use retrack.JsRuntime.Execution.{
  Shared, Phase, preparing, executing, awaiting, reading, Answer, bad_args, failure, resolved_value,
  bad_result, Runtime, at, near_limit, failed, handling, resolved, answered, Watcher, unborn,
  checking, passed, expired, terminating, returned, sleeping, RuntimeMove, callback, callback_store,
  args_fail, promise, execute_fail, resolve, await_fail, complete, read, read_fail, load,
  handle_running, handle_other, WatcherMove, load_running, load_other, time_out, time_left, store,
  terminate, wake, Execution, begin, Step, run, watch, spawn, tick, Run, here, later,
}

-- the status names a limit
abbrev pub is_limit : ScriptExecutionStatus → Bool
is_limit reached_memory_limit = true
is_limit reached_time_limit = true
is_limit running = false
is_limit execution_completed = false

module _ (max : Duration) where
  -- a limit that is named has been reached
  abbrev pub Reached : Shared → Limit → Type 0
  Reached m memory_limit = m.memory_reached ≡ true
  Reached m time_limit = max < m.elapsed

  abbrev Justified : Shared → ScriptExecutionStatus → Type 0
  Justified m running = Unit
  Justified m reached_memory_limit = m.memory_reached ≡ true
  Justified m reached_time_limit = max < m.elapsed
  Justified m execution_completed = Unit

  abbrev NamesLimit : Option Limit → Type 0
  NamesLimit none = ⊥
  NamesLimit (some l) = Unit

  abbrev JustifiedContext : Shared → Option Limit → Type 0
  JustifiedContext m none = Unit
  JustifiedContext m (some l) = Reached m l

  -- An answer of a failed script names a limit only if it was reached, and names one if the script
  -- was terminated before it failed.
  abbrev pub IsFair : Shared → Bool → Answer → Type 0
  IsFair m b bad_args = Unit
  IsFair m b (failure c) = JustifiedContext m c × (b ≡ true → NamesLimit c)
  IsFair m b resolved_value = Unit
  IsFair m b bad_result = Unit

  -- until the script is completed, a terminated script has reached a limit
  abbrev PhaseOk : Shared → Bool → Phase → Type 0
  PhaseOk m armed preparing = m.terminated || armed ≡ true → is_limit (from m.script_status) ≡ true
  PhaseOk m armed executing = m.terminated || armed ≡ true → is_limit (from m.script_status) ≡ true
  PhaseOk m armed awaiting = m.terminated || armed ≡ true → is_limit (from m.script_status) ≡ true
  PhaseOk m armed reading = Unit

  PhaseOk-limit :
      (m : Shared) (armed : Bool) (p : Phase)
      → is_limit (from m.script_status) ≡ true
      → PhaseOk m armed p
  PhaseOk-limit m armed preparing h = λ t. h
  PhaseOk-limit m armed executing h = λ t. h
  PhaseOk-limit m armed awaiting h = λ t. h
  PhaseOk-limit m armed reading h = tt

  -- `armed`: the watching thread is about to terminate the script
  abbrev RuntimeOk : Shared → Bool → Runtime → Type 0
  RuntimeOk m armed (at p) = PhaseOk m armed p
  RuntimeOk m armed (near_limit p) = Unit
  RuntimeOk m armed (failed b) = b ≡ true → is_limit (from m.script_status) ≡ true
  RuntimeOk m armed (handling b s) = Justified m s × (b ≡ true → is_limit s ≡ true)
  RuntimeOk m armed resolved = Unit
  RuntimeOk m armed (answered b a) = IsFair m b a

  abbrev WatcherOk : Duration → Watcher → Type 0
  WatcherOk elapsed expired = max < elapsed
  WatcherOk elapsed terminating = max < elapsed
  WatcherOk elapsed _ = Unit

  abbrev is_armed : Watcher → Bool
  is_armed terminating = true
  is_armed _ = false

  record IsSound (e : Execution) : Type 0 where
    pub justified : Justified e.shared (from e.shared.script_status)
    pub runtime_ok : RuntimeOk e.shared (is_armed e.watcher) e.runtime
    pub watcher_ok : WatcherOk e.shared.elapsed e.watcher

  -- the context that is added is that of the status that was loaded
  context-IsFair :
      (m : Shared) (b : Bool) (s : ScriptExecutionStatus)
      → Justified m s
      → (b ≡ true → is_limit s ≡ true)
      → IsFair m b (failure (context_of s))
  unfolding context_of
  context-IsFair m b running j h = (tt, λ t. ground (arith, h t))
  context-IsFair m b reached_memory_limit j h = (j, λ t. tt)
  context-IsFair m b reached_time_limit j h = (j, λ t. tt)
  context-IsFair m b execution_completed j h = (tt, λ t. ground (arith, h t))

  RuntimeMove-ok :
      {m m' : Shared} {r r' : Runtime} (armed : Bool)
      → RuntimeMove m r m' r'
      → Justified m (from m.script_status)
      → RuntimeOk m armed r
      → Justified m' (from m'.script_status) × RuntimeOk m' armed r'
  unfolding from code context_of is_running
  RuntimeMove-ok armed callback j h = (j, tt)
  RuntimeMove-ok {m} armed (callback_store {p}) j h = (
    refl,
    PhaseOk-limit (record m { script_status = code reached_memory_limit; memory_reached = true })
        armed p refl,
  )
  RuntimeMove-ok armed args_fail j h = (j, tt)
  RuntimeMove-ok armed promise j h = (j, h)
  RuntimeMove-ok {m} armed execute_fail j h = (j, λ t. h (rw t refl))
  RuntimeMove-ok armed resolve j h = (j, tt)
  RuntimeMove-ok {m} armed await_fail j h = (j, λ t. h (rw t refl))
  RuntimeMove-ok armed complete j h = (tt, tt)
  RuntimeMove-ok armed read j h = (j, tt)
  RuntimeMove-ok armed read_fail j h = (j, tt)
  RuntimeMove-ok armed load j h = (j, (j, h))
  RuntimeMove-ok {m} armed (handle_running {b} {s} e) j h = (tt, context-IsFair m b s h.0 h.1)
  RuntimeMove-ok {m} armed (handle_other {b} {s} e) j h = (j, context-IsFair m b s h.0 h.1)

  -- what the time and the watching thread change
  Justified-later :
      (m : Shared) (d : ℕ) (s : ScriptExecutionStatus)
      → Justified m s
      → Justified (record m { elapsed = m.elapsed + d }) s
  Justified-later m d running j = tt
  Justified-later m d reached_memory_limit j = j
  Justified-later m d reached_time_limit j = omega arith
  Justified-later m d execution_completed j = tt

  IsFair-later :
      (m : Shared) (d : ℕ) (b : Bool) (a : Answer)
      → IsFair m b a
      → IsFair (record m { elapsed = m.elapsed + d }) b a
  IsFair-later m d b bad_args h = tt
  IsFair-later m d b (failure none) h = h
  IsFair-later m d b (failure (some memory_limit)) h = h
  IsFair-later m d b (failure (some time_limit)) h = (omega arith, h.1)
  IsFair-later m d b resolved_value h = tt
  IsFair-later m d b bad_result h = tt

  RuntimeOk-later :
      (m : Shared) (d : ℕ) (armed : Bool) (r : Runtime)
      → RuntimeOk m armed r
      → RuntimeOk (record m { elapsed = m.elapsed + d }) armed r
  RuntimeOk-later m d armed (at preparing) h = h
  RuntimeOk-later m d armed (at executing) h = h
  RuntimeOk-later m d armed (at awaiting) h = h
  RuntimeOk-later m d armed (at reading) h = tt
  RuntimeOk-later m d armed (near_limit p) h = tt
  RuntimeOk-later m d armed (failed b) h = h
  RuntimeOk-later m d armed (handling b s) h = (Justified-later m d s h.0, h.1)
  RuntimeOk-later m d armed resolved h = tt
  RuntimeOk-later m d armed (answered b a) h = IsFair-later m d b a h

  WatcherOk-later : (n d : ℕ) (t : Watcher) → WatcherOk n t → WatcherOk (n + d) t
  WatcherOk-later n d expired h = omega arith
  WatcherOk-later n d terminating h = omega arith
  WatcherOk-later n d unborn h = tt
  WatcherOk-later n d checking h = tt
  WatcherOk-later n d passed h = tt
  WatcherOk-later n d returned h = tt
  WatcherOk-later n d (sleeping until) h = tt

  -- the watching thread stores its status
  RuntimeOk-store :
      (m : Shared) (armed : Bool) (r : Runtime)
      → RuntimeOk m armed r
      → RuntimeOk (record m { script_status = code reached_time_limit }) true r
  unfolding code from
  RuntimeOk-store m armed (at p) h =
      PhaseOk-limit (record m { script_status = code reached_time_limit }) true p refl
  RuntimeOk-store m armed (near_limit p) h = tt
  RuntimeOk-store m armed (failed b) h = λ t. refl
  RuntimeOk-store m armed (handling b s) h = h
  RuntimeOk-store m armed resolved h = tt
  RuntimeOk-store m armed (answered b a) h = h

  -- and terminates the script
  RuntimeOk-terminate :
      (m : Shared) (r : Runtime)
      → RuntimeOk m true r
      → RuntimeOk (record m { terminated = true }) false r
  RuntimeOk-terminate m (at preparing) h = λ t. ground (arith, h)
  RuntimeOk-terminate m (at executing) h = λ t. ground (arith, h)
  RuntimeOk-terminate m (at awaiting) h = λ t. ground (arith, h)
  RuntimeOk-terminate m (at reading) h = tt
  RuntimeOk-terminate m (near_limit p) h = tt
  RuntimeOk-terminate m (failed b) h = h
  RuntimeOk-terminate m (handling b s) h = h
  RuntimeOk-terminate m resolved h = tt
  RuntimeOk-terminate m (answered b a) h = h

  WatcherMove-ok :
      {m m' : Shared} {t t' : Watcher} (r : Runtime)
      → WatcherMove max m t m' t'
      → Justified m (from m.script_status)
      → WatcherOk m.elapsed t
      → RuntimeOk m (is_armed t) r
      → Justified m' (from m'.script_status)
        × WatcherOk m'.elapsed t'
        × RuntimeOk m' (is_armed t') r
  unfolding from code sleep_time
  WatcherMove-ok r (load_running e) j h k = (j, tt, k)
  WatcherMove-ok r (load_other e) j h k = (j, tt, k)
  WatcherMove-ok r (time_out e) j h k = (j, ground arith, k)
  WatcherMove-ok r (time_left e) j h k = (j, tt, k)
  WatcherMove-ok {m} r store j h k = (h, h, RuntimeOk-store m false r k)
  WatcherMove-ok {m} r terminate j h k = (j, tt, RuntimeOk-terminate m r k)
  WatcherMove-ok r (wake e) j h k = (j, tt, k)

  RuntimeMove-elapsed :
      {m m' : Shared} {r r' : Runtime} → RuntimeMove m r m' r' → m.elapsed ≡ m'.elapsed
  RuntimeMove-elapsed callback = refl
  RuntimeMove-elapsed callback_store = refl
  RuntimeMove-elapsed args_fail = refl
  RuntimeMove-elapsed promise = refl
  RuntimeMove-elapsed execute_fail = refl
  RuntimeMove-elapsed resolve = refl
  RuntimeMove-elapsed await_fail = refl
  RuntimeMove-elapsed complete = refl
  RuntimeMove-elapsed read = refl
  RuntimeMove-elapsed read_fail = refl
  RuntimeMove-elapsed load = refl
  RuntimeMove-elapsed (handle_running e) = refl
  RuntimeMove-elapsed (handle_other e) = refl

  spawn-ok :
      (m : Shared) (t : Watcher) (r : Runtime)
      → t ≡ unborn
      → r ≡ at preparing
      → RuntimeOk m (is_armed t) r
      → RuntimeOk m false (at executing)
  spawn-ok m t r u p h =
      subst (λ (x : Watcher). RuntimeOk m (is_armed x) (at executing)) u
        (subst (λ (x : Runtime). RuntimeOk m (is_armed t) x) p h)

  -- Every step of either thread keeps the invariant.
  Step-IsSound : {e f : Execution} → Step max e f → IsSound e → IsSound f
  Step-IsSound {e} (run mv) s =
      let (j, h) = RuntimeMove-ok (is_armed e.watcher) mv s.justified s.runtime_ok in
      record {
        justified = j;
        runtime_ok = h;
        watcher_ok = subst (λ (n : ℕ). WatcherOk n e.watcher) (RuntimeMove-elapsed mv) s.watcher_ok;
      }
  Step-IsSound {e} (watch mv) s =
      let (j, h, k) = WatcherMove-ok e.runtime mv s.justified s.watcher_ok s.runtime_ok in
      record { justified = j; runtime_ok = k; watcher_ok = h }
  Step-IsSound {e} (spawn u p) s = record {
    justified = s.justified;
    runtime_ok = spawn-ok e.shared e.watcher e.runtime u p s.runtime_ok;
    watcher_ok = tt;
  }
  Step-IsSound {e} (tick d b) s = record {
    justified = Justified-later e.shared d (from e.shared.script_status) s.justified;
    runtime_ok = RuntimeOk-later e.shared d (is_armed e.watcher) e.runtime s.runtime_ok;
    watcher_ok = WatcherOk-later e.shared.elapsed d e.watcher s.watcher_ok;
  }

  begin-IsSound : IsSound begin
  unfolding from code
  begin-IsSound = record { justified = tt; runtime_ok = λ t. cc; watcher_ok = tt }

  Run-IsSound : {n : ℕ} {e : Execution} → Run max begin n e → IsSound e
  Run-IsSound (here z) = begin-IsSound
  Run-IsSound (later r step k) = Step-IsSound step (Run-IsSound r)

  -- In every interleaving of the runtime thread, the heap callback and the thread that watches the
  -- time: where a script fails, the error that is answered names the memory limit only if the heap
  -- callback has run, and the time limit only if more than the maximum time has passed; and if the
  -- script was terminated before it failed, the error does name one of the two limits. (Arguments that
  -- cannot be written and a result that cannot be read have errors of their own.)
  pub answered-IsFair :
      {n : ℕ} {e : Execution} (b : Bool) (a : Answer)
      → Run max begin n e
      → e.runtime ≡ answered b a
      → IsFair e.shared b a
  answered-IsFair {e} b a r h =
      subst (λ (x : Runtime). RuntimeOk e.shared (is_armed e.watcher) x) h
        (Run-IsSound r).runtime_ok
