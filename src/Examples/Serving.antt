-- ===== src/Examples/Serving.antt =====
-- The theorems on what the server answers at concrete inputs, and tests.
use retrack.Prelude.{keep, ◌≡◌, refl, true, false, none, List, [], ◌∷◌, arith}
use retrack.Db.{World}
use retrack.Db.Trackers.{get_tracker}
use retrack.Db.Revisions.{belongs_to}
use retrack.Scheduler.Cron
use retrack.Trackers.Api
use retrack.Trackers.Tags
use retrack.Trackers.Validation
use retrack.Server.{
  Request, HttpResponse, api_status, api_get, api_update, api_remove, api_list_revisions,
  api_clear_revisions, serve, ok_json, revisions,
}
use retrack.Server.Refines.{
  serve_all, serve_all-performs, perform_all, update_one, remove_one, clear_one,
}
use retrack.Server.Resources.{reply, behind}
use retrack.Server.Removal.{removed_tracker_gone, cleared_tracker_stays}
use retrack.System.{Reach}
use retrack.Types.{Tracker}
use retrack.Examples.Data.{demo_env, demo_world, demo_printing, demo_params, demo_tracker, disable}

not_found : (serve demo_env demo_printing "1" (λ m. none) (api_get 2) demo_world).0.code ≡ 404
unfolding serve get_tracker
not_found = refl

abbrev says : Request → World → HttpResponse
says = reply demo_env demo_printing "1" (λ m. none)

abbrev after : Request → World → World
after = behind demo_env demo_printing "1" (λ m. none)

-- a client gets a tracker, clears its revisions, switches it off, asks for the status and removes it
abbrev day : List Request
day = api_get 1 ∷ api_clear_revisions 1 ∷ api_update 1 disable ∷ api_status true ∷ api_remove 1 ∷ []

serve_all-performs_example :
    (serve_all demo_env demo_printing "1" (λ m. none) day demo_world
      ≡ perform_all demo_env (clear_one 1 ∷ update_one 1 disable ∷ remove_one 1 ∷ []) demo_world)
    × Reach demo_env demo_world (serve_all demo_env demo_printing "1" (λ m. none) day demo_world)
serve_all-performs_example =
    serve_all-performs demo_env demo_printing "1" (λ m. none) day demo_world

abbrev created : Tracker
created = Api.new_tracker demo_env demo_params 101 1000000

abbrev switched_off : Tracker
switched_off = record demo_tracker { enabled = false; job_id = none; updated_at = 1000000 }

removed_tracker_gone_example :
    ((says (api_get 1) (after (api_remove 1) demo_world)).code ≡ 404)
    × ((says (api_list_revisions 1 true) (after (api_remove 1) demo_world)).code ≡ 400)
    × (keep (belongs_to 1) (after (api_remove 1) demo_world).trackers_data ≡ [])
    × (says (api_get 2) (after (api_remove 1) demo_world) ≡ says (api_get 2) demo_world)
    × (says (api_list_revisions 2 true) (after (api_remove 1) demo_world)
        ≡ says (api_list_revisions 2 true) demo_world)
removed_tracker_gone_example =
    removed_tracker_gone demo_env demo_printing "1" (λ m. none) 1 true 2 demo_world (omega arith)

cleared_tracker_stays_example :
    (says (api_list_revisions 1 true) (after (api_clear_revisions 1) demo_world)
      ≡ ok_json (revisions []))
    × (says (api_get 1) (after (api_clear_revisions 1) demo_world) ≡ says (api_get 1) demo_world)
    × (says (api_get 2) (after (api_clear_revisions 1) demo_world) ≡ says (api_get 2) demo_world)
    × (says (api_list_revisions 2 true) (after (api_clear_revisions 1) demo_world)
        ≡ says (api_list_revisions 2 true) demo_world)
cleared_tracker_stays_example =
    cleared_tracker_stays demo_env demo_printing "1" (λ m. none) 1 true 2 demo_world refl
      (omega arith)
