-- ===== src/Db/Trackers/Find.antt =====
-- Looking a row of `trackers` up behind each kind of write.
use retrack.Prelude.{
  Bool-cases, any, find, keep, ◌≡◌, refl, ap, ◌≢◌, inl, inr, Bool, true, false, not, ◌||◌, none,
  some, List, [], ◌∷◌, ◌++◌, arith,
}
use retrack.Types.{Uuid}
use retrack.Db.{TrackerRow}
use retrack.Db.Trackers.{has_id, update_where}

-- look-up behind each kind of write
pub find-snoc :
    (p : TrackerRow → Bool) (rows : List TrackerRow) (r : TrackerRow)
    → any p rows ≡ false
    → p r ≡ true
    → find p (rows ++ r ∷ []) ≡ some r
find-snoc p [] r h e = rw e refl
find-snoc p (x ∷ rows) r h e = ground (arith, find-snoc p rows r)

pub find-snoc_other :
    (p : TrackerRow → Bool) (rows : List TrackerRow) (r : TrackerRow)
    → p r ≡ false
    → find p (rows ++ r ∷ []) ≡ find p rows
find-snoc_other p [] r e = rw e refl
find-snoc_other p (x ∷ rows) r e = ground (arith, find-snoc_other p rows r e)

pub find-none :
    (p : TrackerRow → Bool) (rows : List TrackerRow) → any p rows ≡ false → find p rows ≡ none
find-none p [] h = refl
find-none p (x ∷ rows) h = ground (arith, find-none p rows)

pub find-update_where :
    (f : TrackerRow → TrackerRow) (id : Uuid) (rows : List TrackerRow) (r : TrackerRow)
    → ((x : TrackerRow) → has_id id (f x) ≡ true)
    → find (has_id id) rows ≡ some r
    → find (has_id id) (update_where f id rows) ≡ some (f r)
unfolding update_where
find-update_where f id [] r k e = cc
find-update_where f id (x ∷ rows) r k e = elim (Bool-cases (has_id id x)) [
  | inl here ↦ rw (here, k x) (ap (λ (y : TrackerRow). some (f y)) (ground (arith, here, e)))
  | inr there ↦ rw (there, there) (find-update_where f id rows r k (ground (arith, there, e)))
]

pub find-update_where_other :
    (f : TrackerRow → TrackerRow) (id other : Uuid) (rows : List TrackerRow)
    → other ≢ id
    → ((x : TrackerRow) → has_id id (f x) ≡ true)
    → find (has_id other) (update_where f id rows) ≡ find (has_id other) rows
unfolding update_where
find-update_where_other f id other [] n k = refl
find-update_where_other f id other (x ∷ rows) n k =
    ground (arith, find-update_where_other f id other rows n k, k x)

pub find-removed :
    (id : Uuid) (rows : List TrackerRow)
    → find (has_id id) (keep (λ r. not (has_id id r)) rows) ≡ none
find-removed id [] = refl
find-removed id (x ∷ rows) = ground (arith, find-removed id rows)

pub find-removed_other :
    (id other : Uuid) (rows : List TrackerRow)
    → other ≢ id
    → find (has_id other) (keep (λ r. not (has_id id r)) rows) ≡ find (has_id other) rows
find-removed_other id other [] n = refl
find-removed_other id other (x ∷ rows) n = ground (arith, find-removed_other id other rows n)

pub any-or :
    (p q : TrackerRow → Bool) (rows : List TrackerRow)
    → any (λ r. p r || q r) rows ≡ false
    → any p rows ≡ false
any-or p q [] h = refl
any-or p q (x ∷ rows) h = ground (arith, any-or p q rows)

pub id_of_find :
    (id : Uuid) (rows : List TrackerRow) (r : TrackerRow)
    → find (has_id id) rows ≡ some r
    → r.tracker.id ≡ id
id_of_find id [] r e = cc
id_of_find id (x ∷ rows) r e = elim (Bool-cases (has_id id x)) [
  | inl here ↦ ground (arith, here, e)
  | inr there ↦ id_of_find id rows r (ground (arith, there, e))
]
