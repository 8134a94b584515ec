-- ===== src/Db/Paging.antt =====
-- Keyset pagination as the streams of the database extensions do it: `WHERE key > last ORDER BY key
-- LIMIT page_size`, until a page is not full.
pub mod Complete
use retrack.Prelude.{
  ltb, leb, if◌then◌else◌, length, take, last?, keep, map_option, ℕ, zero, suc, Option, none, some,
  List, [], ◌∷◌, ◌++◌,
}

module _ {A : Type 0} (key : A → ℕ) where
  unfoldable pub insert_by : A → List A → List A
  insert_by x [] = x ∷ []
  insert_by x (y ∷ ys) = if leb (key x) (key y) then x ∷ y ∷ ys else y ∷ insert_by x ys

  -- ORDER BY
  unfoldable pub order_by : List A → List A
  unfolding insert_by
  order_by [] = []
  order_by (x ∷ xs) = insert_by x (order_by xs)

  -- one query
  unfoldable pub page : ℕ → List A → ℕ → List A
  page page_size rows last = take page_size (order_by (keep (λ r. ltb last (key r)) rows))

  -- the `last = row.key` of the loop over a page
  abbrev pub last_key : ℕ → Option A → ℕ
  last_key last none = last
  last_key last (some r) = key r

  -- all that the stream yields; `none` means that the fuel ran out
  unfoldable pub stream : ℕ → ℕ → List A → ℕ → Option (List A)
  stream zero page_size rows last = none
  stream (suc fuel) page_size rows last =
      let p = page page_size rows last in
      let rest = stream fuel page_size rows (last_key last (last? p)) in
      if ltb (length p) page_size then some p else map_option (λ r. p ++ r) rest
