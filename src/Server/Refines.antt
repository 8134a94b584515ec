-- ===== src/Server/Refines.antt =====
-- The server implements the operations of System: what the requests amount to.
use retrack.Prelude.{Option, ℕ, ◌≡◌, refl, ap, subst, sym, ◌∙◌, List, [], ◌∷◌, String}
use retrack.Env.{Env}
use retrack.Error.{Result, ok, err}
use retrack.Exec.{Exec, pure, continue, ◌>>=◌}
use retrack.Db.{World}
use retrack.Db.Trackers as Rows
use retrack.Db.Trackers.{has_id}
use retrack.Db.Revisions.{clear_tracker_data}
use retrack.Types.{Uuid, TrackerCreateParams, TrackerUpdateParams}
use retrack.Trackers.Api.{create_tracker, update_tracker, get_trackers, remove_trackers}
use retrack.Trackers.Revise.{create_tracker_data_revision}
use retrack.Trackers.Diff.{Printing}
use retrack.Trackers.History.{get_tracker_data}
use retrack.System.{Step, create, update, remove, remove_all, check, clear, Reach, here, next}
use retrack.Server.Atomic.{list_same, history_same}
use retrack.Server.{
  Request, api_status, api_list, api_get, api_create, api_update, api_remove, api_bulk_remove,
  api_list_revisions, api_create_revision, api_clear_revisions, handle, serve,
}

module _ {A B : Type 0} where
  continue-world : (r : Result A) (g : A → B) (w : World) → (continue r (λ a. pure (g a)) w).1 ≡ w
  continue-world (ok a) g w = refl
  continue-world (err e) g w = refl

  -- what is made of a result changes no state
  pub map-world :
      (m : Exec World A) (g : A → B) (w : World) → ((m >>= λ a. pure (g a)) w).1 ≡ (m w).1
  map-world m g w = continue-world (m w).0 g (m w).1

-- what a request asks of the library
pub data Operation : Type 0 where
  create_one : (params : TrackerCreateParams) → Operation
  update_one : (id : Uuid) (params : TrackerUpdateParams) → Operation
  remove_one : (id : Uuid) → Operation
  remove_tagged : (tags : List String) → Operation
  check_one : (id : Uuid) → Operation
  clear_one : (id : Uuid) → Operation

-- the operations that a sequence of requests asks for: none where a request reads
abbrev pub asked : Request → List Operation → List Operation
asked (api_status fail) ops = ops
asked (api_list tags) ops = ops
asked (api_get id) ops = ops
asked (api_list_revisions id diff) ops = ops
asked (api_create params) ops = create_one params ∷ ops
asked (api_update id params) ops = update_one id params ∷ ops
asked (api_remove id) ops = remove_one id ∷ ops
asked (api_bulk_remove tags) ops = remove_tagged tags ∷ ops
asked (api_create_revision id) ops = check_one id ∷ ops
asked (api_clear_revisions id) ops = clear_one id ∷ ops

abbrev pub asked_all : List Request → List Operation
asked_all [] = []
asked_all (r ∷ rs) = asked r (asked_all rs)

module _ (env : Env) where
  -- an operation, whether it succeeds or fails
  abbrev pub perform : Operation → World → World
  perform (create_one params) w = (create_tracker env params w).1
  perform (update_one id params) w = (update_tracker env id params w).1
  perform (remove_one id) w = (Rows.remove_tracker id w).1
  perform (remove_tagged tags) w = (remove_trackers env tags w).1
  perform (check_one id) w = (create_tracker_data_revision env id w).1
  perform (clear_one id) w = (clear_tracker_data id w).1

  abbrev pub perform_all : List Operation → World → World
  perform_all [] w = w
  perform_all (o ∷ os) w = perform_all os (perform o w)

  perform-Step : (o : Operation) (w : World) → Step env w (perform o w)
  perform-Step (create_one params) w = create params w
  perform-Step (update_one id params) w = update id params w
  perform-Step (remove_one id) w = remove id w
  perform-Step (remove_tagged tags) w = remove_all tags w
  perform-Step (check_one id) w = check id w
  perform-Step (clear_one id) w = clear id w

  perform_all-Reach :
      {first : World} (os : List Operation) (w : World)
      → Reach env first w
      → Reach env first (perform_all os w)
  perform_all-Reach [] w r = r
  perform_all-Reach (o ∷ os) w r = perform_all-Reach os (perform o w) (next r (perform-Step o w))

  module _ (printing : Printing) (version : String) (next_job : ℕ → Option (Option ℕ)) where
    abbrev state_behind : Request → World → World
    state_behind request w = (serve env printing version next_job request w).1

    serve-perform :
        (request : Request) (os : List Operation) (w : World)
        → perform_all (asked request os) w ≡ perform_all os (state_behind request w)
    unfolding serve handle Rows.get_tracker Rows.remove_tracker clear_tracker_data
    serve-perform (api_status fail) os w = refl
    serve-perform (api_list tags) os w =
        ap (perform_all os) (sym (map-world (get_trackers env tags) _ w ∙ list_same env tags w))
    serve-perform (api_get id) os w = refl
    serve-perform (api_list_revisions id d) os w =
        ap (perform_all os)
          (sym (map-world (get_tracker_data printing id d) _ w ∙ history_same env printing id d w))
    serve-perform (api_create params) os w =
        ap (perform_all os) (sym (map-world (create_tracker env params) _ w))
    serve-perform (api_update id params) os w =
        ap (perform_all os) (sym (map-world (update_tracker env id params) _ w))
    serve-perform (api_remove id) os w = refl
    serve-perform (api_bulk_remove tags) os w =
        ap (perform_all os) (sym (map-world (remove_trackers env tags) _ w))
    serve-perform (api_create_revision id) os w =
        ap (perform_all os) (sym (map-world (create_tracker_data_revision env id) _ w))
    serve-perform (api_clear_revisions id) os w = refl

    -- the requests that the server answers, one after another
    unfoldable pub serve_all : List Request → World → World
    serve_all [] w = w
    serve_all (r ∷ rs) w = serve_all rs (serve env printing version next_job r w).1

    serve_all-eq-perform_all :
        (requests : List Request) (w : World)
        → serve_all requests w ≡ perform_all (asked_all requests) w
    unfolding serve_all
    serve_all-eq-perform_all [] w = refl
    serve_all-eq-perform_all (r ∷ rs) w =
        serve_all-eq-perform_all rs (state_behind r w) ∙ sym (serve-perform r (asked_all rs) w)

    -- Whatever requests are served, in whatever order, the state behind them is that of the operations
    -- that they ask for, one for each request that writes, of the request's own kind and arguments, and
    -- in the order of the requests, whether each succeeds or is refused: the requests for the status,
    -- for trackers and for revisions leave no trace. It is a state that the operations of the library
    -- reach.
    pub serve_all-performs :
        (requests : List Request) (w : World)
        → (serve_all requests w ≡ perform_all (asked_all requests) w)
          × Reach env w (serve_all requests w)
    serve_all-performs requests w =
        let e = serve_all-eq-perform_all requests w in
        (e, subst (Reach env w) (sym e) (perform_all-Reach (asked_all requests) w here))
