-- ===== src/Server/Resources.antt =====
-- Trackers as resources: what is answered for an id behind a request that creates or updates.
use retrack.Prelude.{find, map_option, ℕ, ◌≡◌, refl, sym, ◌∙◌, Option, String}
use retrack.Error.{Error}
use retrack.Types.{Uuid}
use retrack.Env.{Env}
use retrack.Db.{World, TrackerRow}
use retrack.Db.Trackers as Rows
use retrack.Db.Trackers.{has_id}
use retrack.Trackers.Diff.{Printing}
use retrack.Server.{Request, api_get, serve, HttpResponse, found, tracker}

module _ (env : Env) (printing : Printing) (version : String)
    (next_job : ℕ → Option (Option ℕ)) where
  abbrev pub reply : Request → World → HttpResponse
  reply request w = (serve env printing version next_job request w).0

  abbrev pub behind : Request → World → World
  behind request w = (serve env printing version next_job request w).1

  -- what a look-up answers depends on the rows alone
  pub get-eq :
      (id : Uuid) (w : World) {o : Option TrackerRow}
      → find (has_id id) w.trackers ≡ o
      → reply (api_get id) w ≡ found (map_option (λ r. r.tracker) o)
  unfolding serve Rows.get_tracker
  get-eq id w e = rw e refl

  pub get-same :
      (id : Uuid) (w w' : World)
      → find (has_id id) w'.trackers ≡ find (has_id id) w.trackers
      → reply (api_get id) w' ≡ reply (api_get id) w
  get-same id w w' e = get-eq id w' e ∙ sym (get-eq id w refl)
