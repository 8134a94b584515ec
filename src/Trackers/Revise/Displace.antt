-- ===== src/Trackers/Revise/Displace.antt =====
-- Which rows `displace` removes.
use retrack.Prelude.{
  leb, ◌==◌, Bool-cases, length, take, drop, any, keep, All, ℕ, zero, suc, ◌≡◌, refl, sym, ◌≢◌, inl,
  inr, Bool, true, not, ◌&&◌, List, [], ◌∷◌, arith,
}
use retrack.Exec.{for_each}
use retrack.Error.{ok}
use retrack.Types.{TrackerDataRevision, Uuid}
use retrack.Db.{World}
use retrack.Db.Paging.{insert_by, order_by}
use retrack.Db.Paging.Complete.{insert_by-All, order_by-All, Distinct}
use retrack.Db.Revisions.{belongs_to, with_data, remove_tracker_data_revision}

abbrev pub revision_id : TrackerDataRevision → ℕ
revision_id d = d.id

-- the row is none of those to remove
abbrev pub is_kept : List TrackerDataRevision → TrackerDataRevision → Bool
is_kept gone d = not (any (λ r. d.id == r.id) gone)

abbrev pub survives : Uuid → List TrackerDataRevision → TrackerDataRevision → Bool
survives id gone d = not (belongs_to id d && any (λ r. d.id == r.id) gone)

survives_none : (id : Uuid) (rows : List TrackerDataRevision) → keep (survives id []) rows ≡ rows
survives_none id [] = refl
survives_none id (d ∷ rows) = ground (arith, survives_none id rows)

survives_more :
    (id : Uuid) (r : TrackerDataRevision) (gone rows : List TrackerDataRevision)
    → keep (survives id gone) (keep (λ d. not (belongs_to id d && d.id == r.id)) rows)
      ≡ keep (survives id (r ∷ gone)) rows
survives_more id r gone [] = refl
survives_more id r gone (d ∷ rows) = ground (arith, survives_more id r gone rows)

-- The loop of deletions is one filter.
pub remove_each :
    (id : Uuid) (gone : List TrackerDataRevision) (w : World)
    → for_each (λ (r : TrackerDataRevision). remove_tracker_data_revision id r.id) gone w
      ≡ (ok tt, with_data (keep (survives id gone) w.trackers_data) w)
unfolding for_each remove_tracker_data_revision
remove_each id [] w = rw (survives_none id w.trackers_data) refl
remove_each id (r ∷ gone) w =
    rw
      (
        remove_each id gone
            (with_data (keep (λ d. not (belongs_to id d && d.id == r.id)) w.trackers_data) w),
        survives_more id r gone w.trackers_data,
      )
      refl

pub belongs-survives :
    (id : Uuid) (gone rows : List TrackerDataRevision)
    → keep (belongs_to id) (keep (survives id gone) rows)
      ≡ keep (is_kept gone) (keep (belongs_to id) rows)
belongs-survives id gone [] = refl
belongs-survives id gone (d ∷ rows) = ground (arith, belongs-survives id gone rows)

pub other-survives :
    (id other : Uuid) (gone rows : List TrackerDataRevision)
    → other ≢ id
    → keep (belongs_to other) (keep (survives id gone) rows) ≡ keep (belongs_to other) rows
other-survives id other gone [] h = refl
other-survives id other gone (d ∷ rows) h = ground (arith, other-survives id other gone rows h)

module _ {A : Type 0} (p : A → Bool) (key : A → ℕ) where
  length-keep-insert_by :
      (x : A) (xs : List A) → length (keep p (insert_by key x xs)) ≡ length (keep p (x ∷ xs))
  unfolding insert_by
  length-keep-insert_by x [] = refl
  length-keep-insert_by x (y ∷ ys) = ground (arith, length-keep-insert_by x ys)

  pub length-keep-order_by : (xs : List A) → length (keep p (order_by key xs)) ≡ length (keep p xs)
  unfolding order_by
  length-keep-order_by [] = refl
  length-keep-order_by (x ∷ xs) =
      ground (arith, length-keep-insert_by x (order_by key xs), length-keep-order_by xs)

-- A row whose id is none of theirs is kept.
pub is_kept_of_All :
    (d : TrackerDataRevision) (gone : List TrackerDataRevision)
    → All (λ r. r.id ≢ d.id) gone
    → is_kept gone d ≡ true
is_kept_of_All d [] h = refl
is_kept_of_All d (r ∷ gone) h = ground (arith, is_kept_of_All d gone h.1)

keep_distinct :
    (x : TrackerDataRevision) (gone xs : List TrackerDataRevision)
    → All (λ y. y.id ≢ x.id) xs
    → keep (is_kept (x ∷ gone)) xs ≡ keep (is_kept gone) xs
keep_distinct x gone [] h = refl
keep_distinct x gone (y ∷ ys) h = ground (arith, keep_distinct x gone ys h.1)

keep_all : (xs : List TrackerDataRevision) → keep (is_kept []) xs ≡ xs
keep_all [] = refl
keep_all (x ∷ xs) = ground (arith, keep_all xs)

-- Removing the first `k` of rows with distinct ids leaves the others.
pub keep-take :
    (k : ℕ) (xs : List TrackerDataRevision)
    → Distinct revision_id xs
    → keep (is_kept (take k xs)) xs ≡ drop k xs
keep-take zero xs h = keep_all xs
keep-take (suc k) [] h = refl
keep-take (suc k) (x ∷ xs) h =
    ground (arith, keep_distinct x (take k xs) xs h.0, keep-take k xs h.1)

module _ {A : Type 0} (key other : A → ℕ) where
  insert_by-Distinct :
      (x : A) (xs : List A)
      → All (λ y. key y ≢ key x) xs
      → Distinct key xs
      → Distinct key (insert_by other x xs)
  unfolding insert_by
  insert_by-Distinct x [] h k = (tt, tt)
  insert_by-Distinct x (y ∷ ys) h k = elim (Bool-cases (leb (other x) (other y))) [
    | inl e ↦ rw e (h, k)
    | inr e ↦ rw e (
      insert_by-All (λ z. key z ≢ key y) other x ys (λ q. h.0 (sym q)) k.0,
      insert_by-Distinct x ys h.1 k.1,
    )
  ]

  pub order_by-Distinct : (xs : List A) → Distinct key xs → Distinct key (order_by other xs)
  unfolding order_by
  order_by-Distinct [] h = tt
  order_by-Distinct (x ∷ xs) h =
      insert_by-Distinct x (order_by other xs) (order_by-All (λ y. key y ≢ key x) other xs h.0)
        (order_by-Distinct xs h.1)
