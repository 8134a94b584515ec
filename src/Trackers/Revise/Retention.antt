-- ===== src/Trackers/Revise/Retention.antt =====
-- How many revisions of a tracker are stored after a check that found a change.
use retrack.Trackers.Actions.Notify.{actions-SameRows}
use retrack.Trackers.Actions.{execute_tracker_action}
use mathlib.Core.List.{append-nil}
use retrack.Exec.{Exec, for_each, >>=-eq-ok, ◌>>=◌, pure}
use retrack.Prelude.{
  ltb, if◌then◌else◌, ltb→lt, tests, Bool-cases, length, take, last?, any, keep, All, length-append,
  keep-append, map_option, length-drop, All-keep, All-take, ℕ, ◌+◌, ◌-◌, min, ◌≡◌, refl, ap, ◌∙◌,
  ◌≢◌, inl, inr, true, false, List, [], ◌∷◌, ◌++◌, arith,
}
use retrack.Error.{ok}
use retrack.Types.{TrackerDataRevision, Tracker, Uuid}
use retrack.Env.{Env}
use retrack.Db.{World}
use retrack.Db.Paging.{order_by}
use retrack.Db.Paging.Complete.{Distinct, keep-Distinct, order_by-All, length-order_by}
use retrack.Db.Revisions.{belongs_to, with_data, same_revision, insert_tracker_data_revision}
use retrack.Trackers.Revise.{max_revisions, insert_if_allowed, displace, store_changed}
use retrack.Trackers.Revise.Displace.{
  revision_id, is_kept, survives, remove_each, belongs-survives, other-survives,
  length-keep-order_by, keep-take, order_by-Distinct, is_kept_of_All,
}

-- the rows of one tracker, and the same rows as `get_tracker_data` lists them
abbrev pub rows_of : Uuid → World → List TrackerDataRevision
rows_of id w = keep (belongs_to id) w.trackers_data

abbrev pub oldest_first : List TrackerDataRevision → List TrackerDataRevision
oldest_first = order_by (λ d. d.created_at)

-- Of `n` rows the displacement takes the oldest.
length-survivors :
    (k : ℕ) (rows : List TrackerDataRevision)
    → Distinct revision_id rows
    → length (keep (is_kept (take k (oldest_first rows))) rows) ≡ length rows - k
length-survivors k rows h =
    let sorted = oldest_first rows in
    let kept = is_kept (take k sorted) in
    omega (
      arith,
      length-keep-order_by kept (λ d. d.created_at) rows,
      ap length (keep-take k sorted (order_by-Distinct revision_id (λ d. d.created_at) rows h)),
      length-drop k sorted,
      length-order_by (λ (d : TrackerDataRevision). d.created_at) rows,
    )

fresh_ids :
    (d : TrackerDataRevision) (rows : List TrackerDataRevision)
    → any (same_revision d) rows ≡ false
    → All (λ r. r.id ≢ d.id) rows
fresh_ids d [] h = tt
fresh_ids d (r ∷ rows) h = ground (arith, fresh_ids d rows)

-- A revision that the table took is none of those to displace.
fresh_kept :
    (id : Uuid) (k : ℕ) (d : TrackerDataRevision) (rows : List TrackerDataRevision)
    → any (same_revision d) rows ≡ false
    → is_kept (take k (oldest_first (keep (belongs_to id) rows))) d ≡ true
fresh_kept id k d rows h =
    let P = λ (r : TrackerDataRevision). r.id ≢ d.id in
    let own = keep (belongs_to id) rows in
    is_kept_of_All d (take k (oldest_first own)) (
      All-take P k (oldest_first own) (
        order_by-All P (λ r. r.created_at) own
          (All-keep P (belongs_to id) rows (fresh_ids d rows h))))

module _ (id : Uuid) (rows : List TrackerDataRevision) (distinct : Distinct revision_id rows) where
  abbrev own : List TrackerDataRevision
  own = keep (belongs_to id) rows

  length-own-displaced :
      (k : ℕ)
      → length (keep (belongs_to id) (keep (survives id (take k (oldest_first own))) rows))
        ≡ length own - k
  length-own-displaced k =
      ap length (belongs-survives id (take k (oldest_first own)) rows)
      ∙ length-survivors k own (keep-Distinct revision_id (belongs_to id) rows distinct)

  length-own-inserted :
      (k : ℕ) (d : TrackerDataRevision)
      → d.tracker_id ≡ id
      → any (same_revision d) rows ≡ false
      → length
          (keep (belongs_to id) (keep (survives id (take k (oldest_first own))) (rows ++ d ∷ [])))
        ≡ length own - k + 1
  length-own-inserted k d mine fresh =
      let gone = take k (oldest_first own) in
      omega (
        arith,
        ap length (ap (keep (belongs_to id)) (keep-append (survives id gone) rows (d ∷ []))),
        ap length (
            keep-append (belongs_to id) (keep (survives id gone) rows)
              (keep (survives id gone) (d ∷ []))),
        length-append {0} (keep (belongs_to id) (keep (survives id gone) rows))
            (keep (belongs_to id) (keep (survives id gone) (d ∷ []))),
        length-own-displaced k,
        last_one,
      )
    where
      last_one :
          length (keep (belongs_to id) (keep (survives id (take k (oldest_first own))) (d ∷ [])))
          ≡ 1
      last_one = ground (arith, fresh_kept id k d rows fresh)

leb_of_ltb : (n : ℕ) → ltb 0 n ≡ false → n ≡ 0
leb_of_ltb n h = ground arith

module _ (env : Env) (t : Tracker) where
  -- the rows after the displacement
  displace-rows :
      (revisions : List TrackerDataRevision) (w : World)
      → displace env t revisions w ≡ (
        ok tt,
        with_data
            (keep
              (survives t.id (take (length revisions + 1 - max_revisions env t) revisions))
              w.trackers_data)
            w,
      )
  unfolding displace
  displace-rows revisions w =
      remove_each t.id (take (length revisions + 1 - max_revisions env t) revisions) w

  abbrev gone : List TrackerDataRevision → List TrackerDataRevision
  gone revisions = take (length revisions + 1 - max_revisions env t) revisions

  abbrev inserted : TrackerDataRevision → World → List TrackerDataRevision
  inserted fetched w =
      if ltb 0 (max_revisions env t) then w.trackers_data ++ fetched ∷ [] else w.trackers_data

  -- the insertion and the displacement
  abbrev finish : List TrackerDataRevision → TrackerDataRevision → Exec World TrackerDataRevision
  finish revisions fetched =
      insert_if_allowed env t fetched >>= λ _. (displace env t revisions >>= λ _. pure fetched)

  finish-rows :
      (revisions : List TrackerDataRevision) (fetched : TrackerDataRevision) (w : World)
      → (finish revisions fetched w).0 ≡ ok fetched
      → ((finish revisions fetched w).1.trackers_data
          ≡ keep (survives t.id (gone revisions)) (inserted fetched w))
        × (ltb 0 (max_revisions env t) ≡ true → any (same_revision fetched) w.trackers_data ≡ false)
  unfolding insert_if_allowed insert_tracker_data_revision
  finish-rows revisions fetched w h = ground (
    arith,
    displace-rows revisions w,
    displace-rows revisions (with_data (w.trackers_data ++ fetched ∷ []) w),
  )

  -- what the stored rows are, in terms of the rows before
  store_changed-rows :
      (revisions : List TrackerDataRevision) (fetched : TrackerDataRevision) (w : World)
      → (store_changed env t revisions fetched w).0 ≡ ok fetched
      → ((store_changed env t revisions fetched w).1.trackers_data
          ≡ keep (survives t.id (gone revisions)) (inserted fetched w))
        × (ltb 0 (max_revisions env t) ≡ true → any (same_revision fetched) w.trackers_data ≡ false)
  unfolding store_changed
  store_changed-rows revisions fetched w h =
      let previous = map_option (λ (r : TrackerDataRevision). r.value) (last? revisions) in
      let actions = for_each (execute_tracker_action env t fetched.value previous) t.actions in
      let (u, _, done, whole) = >>=-eq-ok actions (λ _. finish revisions fetched) w h in
      let same = actions-SameRows env t fetched.value previous t.actions w in
      ground (arith, finish-rows revisions fetched (actions w).1 done, whole, same.trackers_data)

  -- After a check that found a change and succeeded, the tracker has one revision more than before,
  -- or as many as its limit allows if that is less; and no other tracker's revisions have changed.
  pub store_changed-retention :
      (fetched : TrackerDataRevision) (w : World)
      → Distinct revision_id w.trackers_data
      → fetched.tracker_id ≡ t.id
      → (store_changed env t (oldest_first (rows_of t.id w)) fetched w).0 ≡ ok fetched
      → (length (rows_of t.id (store_changed env t (oldest_first (rows_of t.id w)) fetched w).1)
          ≡ min (length (rows_of t.id w) + 1) (max_revisions env t))
        × ((other : Uuid)
            → other ≢ t.id
            → rows_of other (store_changed env t (oldest_first (rows_of t.id w)) fetched w).1
              ≡ rows_of other w)
  store_changed-retention fetched w distinct mine success =
      let revisions = oldest_first (rows_of t.id w) in
      let k = length revisions + 1 - max_revisions env t in
      let (stored, fresh) = store_changed-rows revisions fetched w success in
      let same_length =
        length-order_by (λ (d : TrackerDataRevision). d.created_at) (rows_of t.id w) in
      elim (Bool-cases (ltb 0 (max_revisions env t))) [
        | inl some_kept ↦ (
          rw (stored, some_kept)
              (omega (
                tests,
                length-own-inserted t.id w.trackers_data distinct k fetched mine (fresh some_kept),
                same_length,
                ltb→lt 0 (max_revisions env t) some_kept,
              )),
          λ other ne.
              rw
                (
                  stored,
                  some_kept,
                  other-survives t.id other (gone revisions) (w.trackers_data ++ fetched ∷ []) ne,
                )
                (ground (
                  arith,
                  keep-append (belongs_to other) w.trackers_data (fetched ∷ []),
                  append-nil (keep (belongs_to other) w.trackers_data),
                )),
        )
        | inr none_kept ↦ (
          rw (stored, none_kept)
              (omega (
                arith,
                length-own-displaced t.id w.trackers_data distinct k,
                same_length,
                leb_of_ltb (max_revisions env t) none_kept,
              )),
          λ other ne.
              rw (stored, none_kept, other-survives t.id other (gone revisions) w.trackers_data ne)
                refl,
        )
      ]
