-- ===== src/Server/Atomic.antt =====
-- A request that is refused writes nothing.
use retrack.Prelude.{
  Option-cases, find, ◌≤◌, ℕ, ◌≡◌, refl, ap, subst, ◌∙◌, inl, inr, Bool, true, false, Option, none,
  some, List, arith, String,
}
use retrack.Error.{Error, Result, ok, err, Result-cases}
use retrack.Exec.{Exec, continue, pure, lift, ◌>>=◌}
use retrack.Types.{Tracker, Uuid, TrackerCreateParams, TrackerUpdateParams, TrackerDataRevision}
use retrack.Env.{Env}
use retrack.Db.{World}
use retrack.Db.Trackers as Rows
use retrack.Db.Trackers.{has_id}
use retrack.Db.{observe, utc_now}
use retrack.Db.Revisions as Stored
use retrack.Db.Revisions.{clear_tracker_data}
use retrack.Error.{nothing_to_update}
use retrack.Trackers.Api.{
  create_tracker, update_tracker, write_update, or_not_found, new_tracker, updated, is_unchanged,
  filter_tags, get_trackers, remove_trackers,
}
use retrack.Trackers.History.{get_tracker_data, shown}
use retrack.Trackers.Diff.{Printing}
use retrack.Trackers.Validation.{validate_tracker, reject_if}
use retrack.Server.{
  Request, api_status, api_list, api_get, api_create, api_update, api_remove, api_bulk_remove,
  api_list_revisions, api_create_revision, api_clear_revisions, handle, serve, report, answer,
  HttpResponse, Body, trackers, tracker, count, revisions, ok_json,
}
use retrack.Trackers.Validation.Frame.{Frame, validate_tracker-Frame}

abbrev pub creates_revision : Request → Bool
creates_revision (api_create_revision id) = true
creates_revision _ = false

-- a method that fails leaves the tables as they are
pub record IsAtomic {A : Type 0} (m : Exec World A) : Type 0 where
  pub at : (w : World) (e : Error) → (m w).0 ≡ err e → (m w).1.tables ≡ w.tables

module _ {A : Type 0} where
  pub IsAtomic-pure : (a : A) → IsAtomic (pure {S = World} a)
  IsAtomic-pure a = record { at = λ w e h. refl }

  pub IsAtomic-lift : (r : Result A) → IsAtomic (lift {S = World} r)
  IsAtomic-lift r = record { at = λ w e h. refl }

  pub Frame-IsAtomic : (m : Exec World A) → Frame m → IsAtomic m
  Frame-IsAtomic m f = record { at = λ w e h. f w }

module _ {A B : Type 0} where
  continue-atomic :
      (r : Result A) (f : A → Exec World B) (w : World) (e : Error)
      → ((a : A) → IsAtomic (f a))
      → (continue r f w).0 ≡ err e
      → (continue r f w).1.tables ≡ w.tables
  continue-atomic (ok a) f w e k h = (k a).at w e h
  continue-atomic (err x) f w e k h = refl

  -- behind a part that writes nothing
  pub bind-IsAtomic :
      (m : Exec World A) (f : A → Exec World B)
      → Frame m
      → ((a : A) → IsAtomic (f a))
      → IsAtomic (m >>= f)
  bind-IsAtomic m f frame k = record {
    at = λ w e h. let (r, w') = m w in continue-atomic r f w' e k h ∙ frame w;
  }

  continue-pure-atomic :
      (r : Result A) (g : A → B) (w w' : World) (e : Error)
      → ((x : Error) → r ≡ err x → w'.tables ≡ w.tables)
      → (continue r (λ a. pure (g a)) w').0 ≡ err e
      → (continue r (λ a. pure (g a)) w').1.tables ≡ w.tables
  continue-pure-atomic (ok a) g w w' e k h = cc
  continue-pure-atomic (err x) g w w' e k h = k x refl

  -- before a part that cannot fail
  pub map-IsAtomic : (m : Exec World A) (g : A → B) → IsAtomic m → IsAtomic (m >>= λ a. pure (g a))
  map-IsAtomic m g k = record {
    at = λ w e h. let (r, w') = m w in continue-pure-atomic r g w w' e (k.at w) h;
  }

-- what comes of a method is sent with the status 200
sent_continue :
    {A : Type 0} (r : Result A) (b : A → Body) (w : World) {out : HttpResponse}
    → (continue {S = World} r (λ a. pure (ok_json (b a))) w).0 ≡ ok out
    → ¬ (400 ≤ out.code)
sent_continue (ok a) b w h c = absurd (ground arith)
sent_continue (err e) b w h c = cc

sent_ok :
    {A : Type 0} (m : Exec World A) (b : A → Body) (w : World) {out : HttpResponse}
    → ((m >>= λ a. pure (ok_json (b a))) w).0 ≡ ok out
    → ¬ (400 ≤ out.code)
sent_ok m b w h c = sent_continue (m w).0 b (m w).1 h c

module _ (env : Env) where
  insert-IsAtomic : (t : Tracker) → IsAtomic (Rows.insert_tracker env t)
  unfolding Rows.insert_tracker
  insert-IsAtomic t = record { at = λ w e h. ground arith }

  update_row-IsAtomic : (t : Tracker) → IsAtomic (Rows.update_tracker env t)
  unfolding Rows.update_tracker
  update_row-IsAtomic t = record { at = λ w e h. ground arith }

  get_tracker-Frame : (id : Uuid) → Frame (Rows.get_tracker id)
  unfolding Rows.get_tracker
  get_tracker-Frame id w = refl

  utc_now-Frame : Frame (utc_now env)
  unfolding utc_now
  utc_now-Frame w = refl

  create-IsAtomic : (params : TrackerCreateParams) → IsAtomic (create_tracker env params)
  unfolding create_tracker
  create-IsAtomic params = bind-IsAtomic (utc_now env) _ utc_now-Frame (λ at.
      bind-IsAtomic (observe env.now_v7) _ (λ w. refl)
        (λ id.
          let t = new_tracker env params id at in
          bind-IsAtomic (validate_tracker env t) _ (validate_tracker-Frame env t)
            (λ u. map-IsAtomic (Rows.insert_tracker env t) (λ v. t) (insert-IsAtomic t))))

  write_update-IsAtomic :
      (params : TrackerUpdateParams) (t : Tracker) → IsAtomic (write_update env params t)
  unfolding write_update
  write_update-IsAtomic params existing = bind-IsAtomic (utc_now env) _ utc_now-Frame (λ now.
      let t = updated env existing params now in
      bind-IsAtomic (validate_tracker env t) _ (validate_tracker-Frame env t)
        (λ u. map-IsAtomic (Rows.update_tracker env t) (λ v. t) (update_row-IsAtomic t)))

  or_not_found-Frame : (o : Option Tracker) → Frame (or_not_found o)
  or_not_found-Frame none w = refl
  or_not_found-Frame (some t) w = refl

  update-IsAtomic :
      (id : Uuid) (params : TrackerUpdateParams) → IsAtomic (update_tracker env id params)
  unfolding update_tracker
  update-IsAtomic id params =
      bind-IsAtomic (lift (reject_if (is_unchanged params) nothing_to_update)) _ (λ w. refl)
        (λ u. bind-IsAtomic (Rows.get_tracker id) _ (get_tracker-Frame id) (λ found.
          bind-IsAtomic (or_not_found found) _ (or_not_found-Frame found)
            (λ t. write_update-IsAtomic params t)))

  filter_tags-Frame : (tags : List String) → Frame (filter_tags env tags)
  unfolding filter_tags
  filter_tags-Frame tags w = ground arith

  remove_all-IsAtomic : (tags : List String) → IsAtomic (remove_trackers env tags)
  unfolding remove_trackers Rows.remove_trackers
  remove_all-IsAtomic tags =
      bind-IsAtomic (filter_tags env tags) _ (filter_tags-Frame tags)
        (λ ts. record { at = λ w e h. cc })

  pub list_same : (tags : List String) (w : World) → (get_trackers env tags w).1 ≡ w
  unfolding get_trackers Rows.get_trackers filter_tags
  list_same tags w = ground arith

  module _ (printing : Printing) where
    shown_same :
        (d : Bool) (rs : List TrackerDataRevision) (w : World) → (shown printing d rs w).1 ≡ w
    shown_same false rs w = refl
    shown_same true rs w = ground arith

    pub history_same : (id : Uuid) (d : Bool) (w : World) → (get_tracker_data printing id d w).1 ≡ w
    unfolding get_tracker_data Rows.get_tracker Stored.get_tracker_data
    history_same id d w = elim (Option-cases (find (has_id id) w.trackers)) [
      | inl e ↦ rw e refl
      | inr (r, e) ↦ rw e (shown_same d _ w)
    ]

  module _ (printing : Printing) (version : String) (next_job : ℕ → Option (Option ℕ)) where
    handle-IsAtomic :
        (request : Request)
        → creates_revision request ≡ false
        → IsAtomic (handle env printing version next_job request)
    unfolding handle report Rows.remove_tracker clear_tracker_data
    handle-IsAtomic (api_status fail) n = record { at = λ w e h. refl }
    handle-IsAtomic (api_list tags) n = map-IsAtomic (get_trackers env tags) _ (
        Frame-IsAtomic (get_trackers env tags)
          (λ w. ap (λ (x : World). x.tables) (list_same tags w)))
    handle-IsAtomic (api_get id) n =
        map-IsAtomic (Rows.get_tracker id) _
          (Frame-IsAtomic (Rows.get_tracker id) (get_tracker-Frame id))
    handle-IsAtomic (api_create params) n =
        map-IsAtomic (create_tracker env params) _ (create-IsAtomic params)
    handle-IsAtomic (api_update id params) n =
        map-IsAtomic (update_tracker env id params) _ (update-IsAtomic id params)
    handle-IsAtomic (api_remove id) n = record { at = λ w e h. cc }
    handle-IsAtomic (api_bulk_remove tags) n =
        map-IsAtomic (remove_trackers env tags) _ (remove_all-IsAtomic tags)
    handle-IsAtomic (api_list_revisions id d) n = map-IsAtomic (get_tracker_data printing id d) _ (
        Frame-IsAtomic (get_tracker_data printing id d)
          (λ w. ap (λ (x : World). x.tables) (history_same printing id d w)))
    handle-IsAtomic (api_create_revision id) n = cc
    handle-IsAtomic (api_clear_revisions id) n = record { at = λ w e h. cc }

    -- a refusal that is no error: the tables are only read
    refused-Frame :
        (request : Request) (w : World) (r : HttpResponse)
        → creates_revision request ≡ false
        → (handle env printing version next_job request w).0 ≡ ok r
        → 400 ≤ r.code
        → (handle env printing version next_job request w).1.tables ≡ w.tables
    unfolding handle Rows.get_tracker Rows.remove_tracker clear_tracker_data
    refused-Frame (api_status fail) w r n h c = refl
    refused-Frame (api_list tags) w r n h c =
        absurd (sent_ok (get_trackers env tags) trackers w h c)
    refused-Frame (api_get id) w r n h c = refl
    refused-Frame (api_create params) w r n h c =
        absurd (sent_ok (create_tracker env params) tracker w h c)
    refused-Frame (api_update id params) w r n h c =
        absurd (sent_ok (update_tracker env id params) tracker w h c)
    refused-Frame (api_remove id) w r n h c = absurd (ground arith)
    refused-Frame (api_bulk_remove tags) w r n h c =
        absurd (sent_ok (remove_trackers env tags) count w h c)
    refused-Frame (api_list_revisions id d) w r n h c =
        absurd (sent_ok (get_tracker_data printing id d) revisions w h c)
    refused-Frame (api_create_revision id) w r n h c = cc
    refused-Frame (api_clear_revisions id) w r n h c = absurd (ground arith)

    -- A request, other than for a new revision, whose answer has a status of 400 or more writes no
    -- table.
    pub refused_request-Frame :
        (request : Request) (w : World)
        → creates_revision request ≡ false
        → 400 ≤ (serve env printing version next_job request w).0.code
        → (serve env printing version next_job request w).1.tables ≡ w.tables
    unfolding serve
    refused_request-Frame request w n c =
        elim (Result-cases (handle env printing version next_job request w).0) [
          | inl (r, e) ↦ refused-Frame request w r n e (
              subst
                (λ (x : Result HttpResponse). 400 ≤ (answer env printing version next_job x).code) e
                c)
          | inr (x, e) ↦ (handle-IsAtomic request n).at w x e
        ]
