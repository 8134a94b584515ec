-- ===== src/Db/Paging/Complete.antt =====
-- Keyset pagination over distinct keys skips nothing and repeats nothing.
use retrack.Prelude.{
  ltb, leb, if◌then◌else◌, tests, Bool-cases, length, take, drop, last?, keep, All, All-keep, Bool,
  length-take, length-keep-le, take-append-drop, take_all, length-drop, ℕ, zero, suc, ◌≤◌, ◌<◌, ◌≡◌,
  refl, sym, ap, ◌∙◌, ◌≢◌, inl, inr, some, List, [], ◌∷◌, arith,
}
use retrack.Db.Paging.{insert_by, order_by, page, last_key, stream}

module _ {A : Type 0} (key : A → ℕ) where
  -- no two rows have one key
  abbrev pub Distinct : List A → Type 0
  Distinct [] = Unit
  Distinct (x ∷ xs) = All (λ y. key y ≢ key x) xs × Distinct xs

  abbrev pub Ascending : List A → Type 0
  Ascending [] = Unit
  Ascending (x ∷ xs) = All (λ y. key x < key y) xs × Ascending xs

  abbrev pub after : ℕ → List A → List A
  after last = keep (λ r. ltb last (key r))

module _ {A : Type 0} (P : A → Type 0) (key : A → ℕ) where
  pub insert_by-All : (x : A) (ys : List A) → P x → All P ys → All P (insert_by key x ys)
  unfolding insert_by
  insert_by-All x [] h k = (h, tt)
  insert_by-All x (y ∷ ys) h k = ground (arith, insert_by-All x ys h k.1)

  pub order_by-All : (xs : List A) → All P xs → All P (order_by key xs)
  unfolding order_by
  order_by-All [] h = tt
  order_by-All (x ∷ xs) h = insert_by-All x (order_by key xs) h.0 (order_by-All xs h.1)

module _ {A : Type 0} (P Q : A → Type 0) (f : (a : A) → P a → Q a) where
  pub All-map : (xs : List A) → All P xs → All Q xs
  All-map [] h = tt
  All-map (x ∷ xs) h = (f x h.0, All-map xs h.1)

module _ {A : Type 0} (key : A → ℕ) where
  insert_by-Ascending :
      (x : A) (ys : List A)
      → All (λ y. key y ≢ key x) ys
      → Ascending key ys
      → Ascending key (insert_by key x ys)
  unfolding insert_by
  insert_by-Ascending x [] h s = (tt, tt)
  insert_by-Ascending x (y ∷ ys) h s = elim (Bool-cases (leb (key x) (key y))) [
    | inl le ↦ rw le (
      (
        ground arith,
        All-map (λ z. key y < key z) (λ z. key x < key z) (λ z p. ground arith) ys s.0,
      ),
      s,
    )
    | inr gt ↦ rw gt (
      insert_by-All (λ z. key y < key z) key x ys (ground arith) s.0,
      insert_by-Ascending x ys h.1 s.1,
    )
  ]

  pub order_by-Ascending : (xs : List A) → Distinct key xs → Ascending key (order_by key xs)
  unfolding order_by
  order_by-Ascending [] h = tt
  order_by-Ascending (x ∷ xs) h =
      insert_by-Ascending x (order_by key xs) (order_by-All (λ y. key y ≢ key x) key xs h.0)
        (order_by-Ascending xs h.1)

  pub keep-Distinct : (p : A → Bool) (xs : List A) → Distinct key xs → Distinct key (keep p xs)
  keep-Distinct p [] h = tt
  keep-Distinct p (x ∷ xs) h =
      ground (arith, All-keep (λ y. key y ≢ key x) p xs h.0, keep-Distinct p xs h.1)

  -- the filter of a query commutes with its order
  insert_by-after :
      (last : ℕ) (x : A) (ys : List A)
      → after key last (insert_by key x ys)
        ≡ (if ltb last (key x) then insert_by key x (after key last ys) else after key last ys)
  unfolding insert_by
  insert_by-after last x [] = ground arith
  insert_by-after last x (y ∷ ys) = ground (arith, insert_by-after last x ys)

  pub order_by-after :
      (last : ℕ) (xs : List A) → order_by key (after key last xs) ≡ after key last (order_by key xs)
  unfolding order_by
  order_by-after last [] = refl
  order_by-after last (x ∷ xs) =
      ground (arith, order_by-after last xs, insert_by-after last x (order_by key xs))

  pub after_below : (last : ℕ) (xs : List A) → All (λ y. last < key y) xs → after key last xs ≡ xs
  after_below last [] h = refl
  after_below last (x ∷ xs) h = ground (arith, after_below last xs h.1)

  pub after-bounded : (last : ℕ) (xs : List A) → All (λ y. last < key y) (after key last xs)
  after-bounded last [] = tt
  after-bounded last (x ∷ xs) = ground (arith, after-bounded last xs)

  pub after-All : (P : A → Type 0) (last : ℕ) (xs : List A) → All P xs → All P (after key last xs)
  after-All P last [] h = tt
  after-All P last (x ∷ xs) h = ground (arith, after-All P last xs h.1)

  pub after-Ascending :
      (last : ℕ) (xs : List A) → Ascending key xs → Ascending key (after key last xs)
  after-Ascending last [] h = tt
  after-Ascending last (x ∷ xs) h =
      ground (arith, after-All (λ y. key x < key y) last xs h.0, after-Ascending last xs h.1)

  pub after-after :
      (last next : ℕ) (xs : List A)
      → last ≤ next
      → after key next (after key last xs) ≡ after key next xs
  after-after last next [] h = refl
  after-after last next (x ∷ xs) h = ground (arith, after-after last next xs h)

  -- the key after which the next page starts lies above all that came before the page
  pub last_key_above :
      (low d n : ℕ) (xs : List A)
      → All (λ y. low < key y) xs
      → 0 < n
      → n ≤ length xs
      → low < last_key key d (last? (take n xs))
  last_key_above low d zero xs h p q = absurd (omega arith)
  last_key_above low d (suc n) [] h p q = absurd (omega arith)
  last_key_above low d (suc zero) (x ∷ xs) h p q = h.0
  last_key_above low d (suc (suc n)) (x ∷ []) h p q = absurd (omega arith)
  last_key_above low d (suc (suc n)) (x ∷ y ∷ xs) h p q =
      last_key_above low d (suc n) (y ∷ xs) h.1 (omega arith) (omega arith)

  pub after_page :
      (d n : ℕ) (xs : List A)
      → Ascending key xs
      → 0 < n
      → n ≤ length xs
      → after key (last_key key d (last? (take n xs))) xs ≡ drop n xs
  after_page d zero xs s p q = absurd (omega arith)
  after_page d (suc n) [] s p q = absurd (omega arith)
  after_page d (suc zero) (x ∷ xs) s p q = ground (arith, after_below (key x) xs s.0)
  after_page d (suc (suc n)) (x ∷ []) s p q = absurd (omega arith)
  after_page d (suc (suc n)) (x ∷ y ∷ xs) s p q = ground (
    arith,
    last_key_above (key x) d (suc n) (y ∷ xs) s.0 (omega arith) (omega arith),
    after_page d (suc n) (y ∷ xs) s.1 (omega arith) (omega arith),
  )

module _ {A : Type 0} (key : A → ℕ) (page_size : ℕ) (rows : List A) where
  pub page-eq-take :
      (last : ℕ)
      → page key page_size rows last ≡ take page_size (after key last (order_by key rows))
  unfolding page
  page-eq-take last = rw (order_by-after key last rows)

  -- One step of the stream, for a page that is full and for one that is not.
  stream_step :
      (fuel last : ℕ) (t : List A)
      → 0 < page_size
      → Ascending key t
      → All (λ y. last < key y) t
      → after key last (order_by key rows) ≡ t
      → length t < suc fuel
      → ((next : ℕ)
          → length (after key next (order_by key rows)) < fuel
          → stream key fuel page_size rows next ≡ some (after key next (order_by key rows)))
      → stream key (suc fuel) page_size rows last ≡ some t
  unfolding stream
  stream_step fuel last t pos asc low e enough ih =
      elim (Bool-cases (ltb (length (take page_size t)) page_size)) [
        | inl short ↦
            rw (page-eq-take last, e, short)
              (ap some (take_all page_size t (omega (tests, length-take page_size t))))
        | inr full ↦
            let fits : page_size ≤ length t = ground (arith, length-take page_size t) in
            let next : ℕ = last_key key last (last? (take page_size t)) in
            let above : last < next = last_key_above key last last page_size t low pos fits in
            let tail : after key next (order_by key rows) ≡ drop page_size t =
              sym (after-after key last next (order_by key rows) (omega arith))
              ∙ ap (after key next) e
              ∙ after_page key last page_size t asc pos fits in
            rw
              (
                page-eq-take last,
                e,
                full,
                ih next (rw tail (omega (arith, length-drop page_size t))),
                tail,
              )
              (ap some (take-append-drop page_size t))
      ]

  pub stream-complete_from :
      (fuel last : ℕ)
      → 0 < page_size
      → Distinct key rows
      → length (after key last (order_by key rows)) < fuel
      → stream key fuel page_size rows last ≡ some (after key last (order_by key rows))
  stream-complete_from zero last pos d enough = absurd (omega arith)
  stream-complete_from (suc fuel) last pos d enough =
      stream_step fuel last (after key last (order_by key rows)) pos
        (after-Ascending key last (order_by key rows) (order_by-Ascending key rows d))
        (after-bounded key last (order_by key rows)) refl enough
        (λ next e. stream-complete_from fuel next pos d e)

module _ {A : Type 0} (key : A → ℕ) where
  length-insert_by : (x : A) (xs : List A) → length (insert_by key x xs) ≡ suc (length xs)
  unfolding insert_by
  length-insert_by x [] = refl
  length-insert_by x (y ∷ ys) = ground (arith, length-insert_by x ys)

  pub length-order_by : (xs : List A) → length (order_by key xs) ≡ length xs
  unfolding order_by
  length-order_by [] = refl
  length-order_by (x ∷ xs) = length-insert_by x (order_by key xs) ∙ ap suc (length-order_by xs)

-- The stream, as one query without a limit.
pub stream_complete :
    {A : Type 0} (key : A → ℕ) (page_size : ℕ) (rows : List A) (fuel last : ℕ)
    → 0 < page_size
    → Distinct key rows
    → length rows < fuel
    → stream key fuel page_size rows last ≡ some (order_by key (keep (λ r. ltb last (key r)) rows))
stream_complete key page_size rows fuel last pos d enough =
    let short : length (after key last (order_by key rows)) < fuel = omega (
      arith,
      length-keep-le (λ r. ltb last (key r)) (order_by key rows),
      length-order_by key rows,
    ) in
    stream-complete_from key page_size rows fuel last pos d short
    ∙ ap some (sym (order_by-after key last rows))
