-- ===== src/JsRuntime/Watch.antt =====
-- The end of the thread that watches the time.
use retrack.Prelude.{ℕ, ◌+◌, ◌≤◌, ◌≡◌, ◌≢◌, refl, subst, Bool, true, false, arith, inl, inr, ◌⊎◌}
use retrack.Scheduler.RetryStrategy.{Duration}
use retrack.JsRuntime.{code, from, is_running}
use retrack.JsRuntime.Execution.{
  Shared, preparing, executing, awaiting, reading, bad_args, failure, resolved_value, bad_result,
  Runtime, at, near_limit, failed, handling, resolved, answered, Watcher, unborn, checking, passed,
  expired, terminating, returned, sleeping, RuntimeMove, callback, callback_store, args_fail,
  promise, execute_fail, resolve, await_fail, complete, read, read_fail, load, handle_running,
  handle_other, WatcherMove, load_running, load_other, time_out, time_left, store, terminate, wake,
  Execution, begin, Step, run, watch, spawn, tick, Run, here, later, is_born, watched,
}

abbrev pub is_answered : Runtime → Bool
is_answered (answered b a) = true
is_answered _ = false

-- the status is no longer that of a script that runs
abbrev Stopped : Shared → Type 0
Stopped m = is_running (from m.script_status) ≡ false

-- how the runtime thread's place bears on the watching thread
abbrev EndOk : Shared → Watcher → Runtime → Type 0
EndOk m t (at preparing) = is_born t ≡ false
EndOk m t (at executing) = Unit
EndOk m t (at awaiting) = Unit
EndOk m t (at reading) = Stopped m
EndOk m t (near_limit preparing) = is_born t ≡ false
EndOk m t (near_limit executing) = Unit
EndOk m t (near_limit awaiting) = Unit
EndOk m t (near_limit reading) = Stopped m
EndOk m t (failed b) = Unit
EndOk m t (handling b s) = is_running s ≡ false → Stopped m
EndOk m t resolved = Unit
EndOk m t (answered b bad_args) = is_born t ≡ false
EndOk m t (answered b (failure c)) = Stopped m
EndOk m t (answered b resolved_value) = Stopped m
EndOk m t (answered b bad_result) = Stopped m

RuntimeMove-EndOk :
    {m m' : Shared} {r r' : Runtime} (t : Watcher)
    → RuntimeMove m r m' r'
    → EndOk m t r
    → EndOk m' t r'
unfolding code from is_running
RuntimeMove-EndOk t (callback {p = preparing}) h = h
RuntimeMove-EndOk t (callback {p = executing}) h = tt
RuntimeMove-EndOk t (callback {p = awaiting}) h = tt
RuntimeMove-EndOk t (callback {p = reading}) h = h
RuntimeMove-EndOk t (callback_store {p = preparing}) h = h
RuntimeMove-EndOk t (callback_store {p = executing}) h = tt
RuntimeMove-EndOk t (callback_store {p = awaiting}) h = tt
RuntimeMove-EndOk t (callback_store {p = reading}) h = refl
RuntimeMove-EndOk t args_fail h = h
RuntimeMove-EndOk t promise h = tt
RuntimeMove-EndOk t execute_fail h = tt
RuntimeMove-EndOk t resolve h = tt
RuntimeMove-EndOk t await_fail h = tt
RuntimeMove-EndOk t complete h = refl
RuntimeMove-EndOk t read h = h
RuntimeMove-EndOk t read_fail h = h
RuntimeMove-EndOk t load h = λ e. e
RuntimeMove-EndOk t (handle_running e) h = refl
RuntimeMove-EndOk t (handle_other e) h = h e

module _ (max : Duration) where
  WatcherMove-is_born :
      {m m' : Shared} {t t' : Watcher} → WatcherMove max m t m' t' → is_born t ≡ true
  WatcherMove-is_born (load_running e) = refl
  WatcherMove-is_born (load_other e) = refl
  WatcherMove-is_born (time_out e) = refl
  WatcherMove-is_born (time_left e) = refl
  WatcherMove-is_born store = refl
  WatcherMove-is_born terminate = refl
  WatcherMove-is_born (wake e) = refl

  WatcherMove-Stopped :
      {m m' : Shared} {t t' : Watcher} → WatcherMove max m t m' t' → Stopped m → Stopped m'
  unfolding code from is_running
  WatcherMove-Stopped (load_running e) h = h
  WatcherMove-Stopped (load_other e) h = h
  WatcherMove-Stopped (time_out e) h = h
  WatcherMove-Stopped (time_left e) h = h
  WatcherMove-Stopped store h = refl
  WatcherMove-Stopped terminate h = h
  WatcherMove-Stopped (wake e) h = h

  WatcherMove-EndOk :
      {m m' : Shared} {t t' : Watcher} (r : Runtime)
      → WatcherMove max m t m' t'
      → EndOk m t r
      → EndOk m' t' r
  WatcherMove-EndOk (at preparing) mv h = cc (WatcherMove-is_born mv)
  WatcherMove-EndOk (at executing) mv h = tt
  WatcherMove-EndOk (at awaiting) mv h = tt
  WatcherMove-EndOk (at reading) mv h = WatcherMove-Stopped mv h
  WatcherMove-EndOk (near_limit preparing) mv h = cc (WatcherMove-is_born mv)
  WatcherMove-EndOk (near_limit executing) mv h = tt
  WatcherMove-EndOk (near_limit awaiting) mv h = tt
  WatcherMove-EndOk (near_limit reading) mv h = WatcherMove-Stopped mv h
  WatcherMove-EndOk (failed b) mv h = tt
  WatcherMove-EndOk (handling b s) mv h = λ e. WatcherMove-Stopped mv (h e)
  WatcherMove-EndOk resolved mv h = tt
  WatcherMove-EndOk (answered b bad_args) mv h = cc (WatcherMove-is_born mv)
  WatcherMove-EndOk (answered b (failure c)) mv h = WatcherMove-Stopped mv h
  WatcherMove-EndOk (answered b resolved_value) mv h = WatcherMove-Stopped mv h
  WatcherMove-EndOk (answered b bad_result) mv h = WatcherMove-Stopped mv h

  Step-EndOk :
      {e f : Execution}
      → Step max e f
      → EndOk e.shared e.watcher e.runtime
      → EndOk f.shared f.watcher f.runtime
  Step-EndOk {e} (run mv) h = RuntimeMove-EndOk e.watcher mv h
  Step-EndOk {e} (watch mv) h = WatcherMove-EndOk e.runtime mv h
  Step-EndOk (spawn u p) h = tt
  Step-EndOk {e} (tick d b) h = h

  Run-EndOk : {n : ℕ} {e : Execution} → Run max begin n e → EndOk e.shared e.watcher e.runtime
  Run-EndOk (here z) = refl
  Run-EndOk (later r step k) = Step-EndOk step (Run-EndOk r)

  -- how many moves are left behind the answer
  abbrev left : Watcher → ℕ
  left unborn = 0
  left returned = 0
  left checking = 1
  left terminating = 1
  left (sleeping until) = 2
  left expired = 2
  left passed = 3

  -- the execution is answered, and there is nothing to watch
  record HasEnded (e : Execution) : Type 0 where
    pub over : is_answered e.runtime ≡ true
    pub settled : (is_born e.watcher ≡ false) ⊎ Stopped e.shared

  answered-settled :
      (m : Shared) (t : Watcher) (r : Runtime)
      → is_answered r ≡ true
      → EndOk m t r
      → (is_born t ≡ false) ⊎ Stopped m
  answered-settled m t (answered b bad_args) e h = inl h
  answered-settled m t (answered b (failure c)) e h = inr h
  answered-settled m t (answered b resolved_value) e h = inr h
  answered-settled m t (answered b bad_result) e h = inr h
  answered-settled m t (at p) e h = cc
  answered-settled m t (near_limit p) e h = cc
  answered-settled m t (failed b) e h = cc
  answered-settled m t (handling b s) e h = cc
  answered-settled m t resolved e h = cc

  RuntimeMove-unanswered :
      {m m' : Shared} {r r' : Runtime} → RuntimeMove m r m' r' → is_answered r ≡ false
  RuntimeMove-unanswered callback = refl
  RuntimeMove-unanswered callback_store = refl
  RuntimeMove-unanswered args_fail = refl
  RuntimeMove-unanswered promise = refl
  RuntimeMove-unanswered execute_fail = refl
  RuntimeMove-unanswered resolve = refl
  RuntimeMove-unanswered await_fail = refl
  RuntimeMove-unanswered complete = refl
  RuntimeMove-unanswered read = refl
  RuntimeMove-unanswered read_fail = refl
  RuntimeMove-unanswered load = refl
  RuntimeMove-unanswered (handle_running e) = refl
  RuntimeMove-unanswered (handle_other e) = refl

  WatcherMove-left :
      {m m' : Shared} {t t' : Watcher}
      → WatcherMove max m t m' t'
      → Stopped m
      → left t' + 1 ≤ left t
  WatcherMove-left (load_running e) h = cc
  WatcherMove-left (load_other e) h = omega arith
  WatcherMove-left (time_out e) h = omega arith
  WatcherMove-left (time_left e) h = omega arith
  WatcherMove-left store h = omega arith
  WatcherMove-left terminate h = omega arith
  WatcherMove-left (wake e) h = omega arith

  watch-stopped :
      {m m' : Shared} {t t' : Watcher}
      → WatcherMove max m t m' t'
      → (is_born t ≡ false) ⊎ Stopped m
      → Stopped m
  watch-stopped mv (inl u) = cc (WatcherMove-is_born mv)
  watch-stopped mv (inr h) = h

  not-preparing : (r : Runtime) → is_answered r ≡ true → r ≢ at preparing
  not-preparing r a p = cc (subst (λ (x : Runtime). is_answered x ≡ true) p a)

  Step-HasEnded : {e f : Execution} → Step max e f → HasEnded e → HasEnded f
  Step-HasEnded (run mv) h = cc (RuntimeMove-unanswered mv, h.over)
  Step-HasEnded (watch mv) h = record {
    over = h.over;
    settled = inr (WatcherMove-Stopped mv (watch-stopped mv h.settled));
  }
  Step-HasEnded {e} (spawn u p) h = absurd (not-preparing e.runtime h.over p)
  Step-HasEnded (tick d b) h = record { over = h.over; settled = h.settled }

  Step-left :
      {e f : Execution} (step : Step max e f)
      → HasEnded e
      → watched step + left f.watcher ≤ left e.watcher
  Step-left (run mv) h = omega arith
  Step-left (watch mv) h = omega (arith, WatcherMove-left mv (watch-stopped mv h.settled))
  Step-left {e} (spawn u p) h = absurd (not-preparing e.runtime h.over p)
  Step-left (tick d b) h = omega arith

  Run-left :
      {e : Execution} {n : ℕ} {f : Execution}
      → HasEnded e
      → Run max e n f
      → HasEnded f × (n + left f.watcher ≤ left e.watcher)
  Run-left h (here z) = (h, omega arith)
  Run-left h (later r step k) =
      let (mid, bound) = Run-left h r in
      (Step-HasEnded step mid, omega (arith, k, bound, Step-left step mid))

  left-le : (t : Watcher) → left t ≤ 3
  left-le unborn = omega arith
  left-le returned = omega arith
  left-le checking = omega arith
  left-le terminating = omega arith
  left-le (sleeping until) = omega arith
  left-le expired = omega arith
  left-le passed = omega arith

  -- Once an execution is answered, whatever the interleaving was until then and is afterwards, the
  -- thread that watches the time makes at most three moves more.
  pub watcher_stops :
      {n k : ℕ} {e f : Execution}
      → Run max begin n e
      → is_answered e.runtime ≡ true
      → Run max e k f
      → k ≤ 3
  watcher_stops {e} {f} r a more =
      let ended : HasEnded e = record {
        over = a;
        settled = answered-settled e.shared e.watcher e.runtime a (Run-EndOk r);
      } in
      let (h, bound) = Run-left ended more in omega (arith, bound, left-le e.watcher)
