-- ===== src/Server/Removal.antt =====
-- What is answered behind a request that removes a tracker or its revisions.
use retrack.Prelude.{
  Option-cases, find, keep, ℕ, ◌≡◌, refl, sym, ap, ◌∙◌, ◌≢◌, inl, inr, Bool, true, false, not,
  Option, none, some, List, [], ◌∷◌, arith, String,
}
use retrack.Error.{Result, ok, err, client, tracker_not_found, status_code}
use retrack.Exec.{continue, pure}
use retrack.Types.{Uuid, TrackerDataRevision}
use retrack.Env.{Env}
use retrack.Db.{World, TrackerRow}
use retrack.Db.Paging.{order_by}
use retrack.Db.Trackers as Rows
use retrack.Db.Trackers.{has_id}
use retrack.Db.Trackers.Find.{find-removed, find-removed_other}
use retrack.Db.Revisions.{belongs_to, clear_tracker_data}
use retrack.Trackers.Diff.{Printing, tracker_data_revisions_diff}
use retrack.Trackers.History.{get_tracker_data, shown, shown_lem, stored_rows}
use retrack.Server.{
  Request, api_get, api_remove, api_list_revisions, api_clear_revisions, serve, answer,
  HttpResponse, ok_json, revisions, error_response,
}
use retrack.Server.Resources.{reply, behind, get-eq, get-same}

-- revisions behind the removal of those of one tracker
keep-removed :
    (id : Uuid) (rows : List TrackerDataRevision)
    → keep (belongs_to id) (keep (λ d. not (belongs_to id d)) rows) ≡ []
keep-removed id [] = refl
keep-removed id (x ∷ rows) = ground (arith, keep-removed id rows)

keep-removed_other :
    (id other : Uuid) (rows : List TrackerDataRevision)
    → other ≢ id
    → keep (belongs_to other) (keep (λ d. not (belongs_to id d)) rows)
      ≡ keep (belongs_to other) rows
keep-removed_other id other [] n = refl
keep-removed_other id other (x ∷ rows) n = ground (arith, keep-removed_other id other rows n)

module _ (env : Env) (printing : Printing) (version : String)
    (next_job : ℕ → Option (Option ℕ)) where
  -- the answers of this server
  abbrev says : Request → World → HttpResponse
  says = reply env printing version next_job

  abbrev left_behind : Request → World → World
  left_behind = behind env printing version next_job

  -- what is sent for a result, whatever the state is
  sent : Result (List TrackerDataRevision) → HttpResponse
  sent (ok rs) = ok_json (revisions rs)
  sent (err e) = error_response e

  reply-sent :
      (r : Result (List TrackerDataRevision)) (w : World)
      → answer env printing version next_job (continue r (λ rs. pure (ok_json (revisions rs))) w).0
        ≡ sent r
  unfolding sent
  reply-sent (ok rs) w = refl
  reply-sent (err e) w = refl

  list-sent :
      (id : Uuid) (d : Bool) (w : World)
      → says (api_list_revisions id d) w ≡ sent (get_tracker_data printing id d w).0
  unfolding serve
  list-sent id d w = let (r, w') = get_tracker_data printing id d w in reply-sent r w'

  shown-same :
      (d : Bool) (rows : List TrackerDataRevision) (w w' : World)
      → (shown printing d rows w').0 ≡ (shown printing d rows w).0
  shown-same false rows w w' = refl
  shown-same true rows w w' = elim (Option-cases (tracker_data_revisions_diff printing rows)) [
    | inl bad ↦ rw bad refl
    | inr (ds, good) ↦ rw good refl
  ]

  absent_answer :
      (id : Uuid) (d : Bool) (w : World)
      → find (has_id id) w.trackers ≡ none
      → (get_tracker_data printing id d w).0 ≡ err (client tracker_not_found)
  unfolding get_tracker_data Rows.get_tracker
  absent_answer id d w e = rw e refl

  stored_rows-same :
      (id : Uuid) (w w' : World)
      → keep (belongs_to id) w'.trackers_data ≡ keep (belongs_to id) w.trackers_data
      → stored_rows printing id w' ≡ stored_rows printing id w
  stored_rows-same id w w' k = ap (order_by (λ (d : TrackerDataRevision). d.created_at)) k

  history-same :
      (id : Uuid) (d : Bool) (w w' : World)
      → find (has_id id) w'.trackers ≡ find (has_id id) w.trackers
      → keep (belongs_to id) w'.trackers_data ≡ keep (belongs_to id) w.trackers_data
      → (get_tracker_data printing id d w').0 ≡ (get_tracker_data printing id d w).0
  history-same id d w w' e k = elim (Option-cases (find (has_id id) w.trackers)) [
    | inl gone ↦ absent_answer id d w' (e ∙ gone) ∙ sym (absent_answer id d w gone)
    | inr (r, there) ↦
        ap (λ (x : Result (List TrackerDataRevision) × World). x.0)
          (shown_lem printing id d w' r (e ∙ there))
        ∙ shown-same d (stored_rows printing id w') w w'
        ∙ ap (λ (x : List TrackerDataRevision). (shown printing d x w).0)
            (stored_rows-same id w w' k)
        ∙ ap (λ (x : Result (List TrackerDataRevision) × World). x.0)
            (sym (shown_lem printing id d w r there))
  ]

  -- The list of a tracker's revisions depends on its row and on its revisions alone.
  list-same :
      (id : Uuid) (d : Bool) (w w' : World)
      → find (has_id id) w'.trackers ≡ find (has_id id) w.trackers
      → keep (belongs_to id) w'.trackers_data ≡ keep (belongs_to id) w.trackers_data
      → says (api_list_revisions id d) w' ≡ says (api_list_revisions id d) w
  list-same id d w w' e k =
      list-sent id d w' ∙ ap sent (history-same id d w w' e k) ∙ sym (list-sent id d w)

  -- Behind a request to remove a tracker, whether it was there or not, asking for it is answered with
  -- 404 and asking for its revisions with 400, and none of its revisions is stored; what is answered
  -- for any other tracker and for its revisions has not changed.
  pub removed_tracker_gone :
      (id : Uuid) (d : Bool) (other : Uuid) (w : World)
      → other ≢ id
      → ((says (api_get id) (left_behind (api_remove id) w)).code ≡ 404)
        × ((says (api_list_revisions id d) (left_behind (api_remove id) w)).code ≡ 400)
        × (keep (belongs_to id) (left_behind (api_remove id) w).trackers_data ≡ [])
        × (says (api_get other) (left_behind (api_remove id) w) ≡ says (api_get other) w)
        × (says (api_list_revisions other d) (left_behind (api_remove id) w)
            ≡ says (api_list_revisions other d) w)
  unfolding serve Rows.remove_tracker sent error_response status_code
  removed_tracker_gone id d other w n =
      let w' : World = left_behind (api_remove id) w in
      let gone = find-removed id w.trackers in
      let kept = find-removed_other id other w.trackers n in
      (
        ap (λ (x : HttpResponse). x.code) (get-eq env printing version next_job id w' gone),
        ap (λ (x : HttpResponse). x.code)
            (list-sent id d w' ∙ ap sent (absent_answer id d w' gone)),
        keep-removed id w.trackers_data,
        get-same env printing version next_job other w w' kept,
        list-same other d w w' kept (keep-removed_other id other w.trackers_data n),
      )

  no_rows_shown : (d : Bool) (w : World) → (shown printing d [] w).0 ≡ ok []
  unfolding tracker_data_revisions_diff
  no_rows_shown true w = refl
  no_rows_shown false w = refl

  -- Behind a request to clear the revisions of a tracker that is there, the list of its revisions is
  -- empty, as they are or as differences, and the tracker is answered as before; what is answered for
  -- any other tracker and for its revisions has not changed.
  pub cleared_tracker_stays :
      (id : Uuid) (d : Bool) (other : Uuid) (w : World) {r : TrackerRow}
      → find (has_id id) w.trackers ≡ some r
      → other ≢ id
      → (says (api_list_revisions id d) (left_behind (api_clear_revisions id) w)
          ≡ ok_json (revisions []))
        × (says (api_get id) (left_behind (api_clear_revisions id) w) ≡ says (api_get id) w)
        × (says (api_get other) (left_behind (api_clear_revisions id) w) ≡ says (api_get other) w)
        × (says (api_list_revisions other d) (left_behind (api_clear_revisions id) w)
            ≡ says (api_list_revisions other d) w)
  unfolding serve clear_tracker_data sent order_by
  cleared_tracker_stays id d other w {r} there n =
      let w' : World = left_behind (api_clear_revisions id) w in
      let empty : stored_rows printing id w' ≡ [] =
        ap (order_by (λ (x : TrackerDataRevision). x.created_at))
          (keep-removed id w.trackers_data) in
      (
        list-sent id d w'
            ∙ ap sent (
                ap (λ (x : Result (List TrackerDataRevision) × World). x.0)
                  (shown_lem printing id d w' r there)
                ∙ ap (λ (x : List TrackerDataRevision). (shown printing d x w').0) empty
                ∙ no_rows_shown d w'),
        get-same env printing version next_job id w w' refl,
        get-same env printing version next_job other w w' refl,
        list-same other d w w' refl (keep-removed_other id other w.trackers_data n),
      )
