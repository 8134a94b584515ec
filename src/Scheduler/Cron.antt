-- ===== src/Scheduler/Cron.antt =====
-- src/scheduler/cron_ext.rs
use retrack.Prelude.{ltb, if◌then◌else◌, ◌-◌, List, [], ◌∷◌}
use retrack.Error.{Result, ok, err, unknown, no_interval}
use retrack.Exec.{◌>>=◌, Exec, lift}
use retrack.Types.{OffsetDateTime}
use retrack.Env.{Env, Cron}
use retrack.Db.{World, observe}
use retrack.Scheduler.RetryStrategy.{Duration, duration_limit}

-- The loop over the occurrences behind the first; `to_std` fails on a negative difference.
pub shortest : Duration → OffsetDateTime → List OffsetDateTime → Result Duration
shortest minimum previous [] = ok minimum
shortest minimum previous (occurrence ∷ rest) =
    let interval = occurrence - previous in
    let next = shortest (if ltb interval minimum then interval else minimum) occurrence rest in
    if ltb occurrence previous then err (unknown no_interval) else next

-- `Duration::MAX` where there are not two occurrences
unfoldable pub shortest_of : List OffsetDateTime → Result Duration
unfolding shortest
shortest_of [] = ok (duration_limit - 1)
shortest_of (first ∷ rest) = shortest (duration_limit - 1) first rest

unfoldable pub min_interval : Env → Cron → Exec World Duration
min_interval env cron = do now ← observe env.now_utc; lift (shortest_of (cron.iter_from now 100))
