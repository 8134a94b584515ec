-- ===== src/Types/DataValue.antt =====
-- components/retrack-types/src/trackers/tracker_data_value.rs: a fetched value and the values that
-- later modifications made of it.
pub mod Items
use retrack.Prelude.{
  ltb, if◌then◌else◌, length, get_elem?, last?, and_then, unwrap_or, ℕ, zero, suc, ◌+◌, map, Option,
  none, some, List, [], ◌∷◌, ◌++◌,
}

abbrev pub sum : List ℕ → ℕ
sum [] = 0
sum (n ∷ ns) = n + sum ns

pub record TrackerDataValue {ℓ} (A : Type ℓ) : Type ℓ where
  pub original : A
  pub mods : Option (List A)

module _ {ℓ} {A : Type ℓ} where
  unfoldable pub new : A → TrackerDataValue A
  new a = record { original = a; mods = none }

  -- `self.mods.get_or_insert_with(Vec::new).push(mod_value)`
  unfoldable pub add_mod : TrackerDataValue A → A → TrackerDataValue A
  add_mod d a = record d { mods = some (unwrap_or d.mods [] ++ a ∷ []) }

  unfoldable pub value : TrackerDataValue A → A
  value d = unwrap_or (and_then d.mods last?) d.original

  -- TrackerDataValueIter::next: the item at the iterator's index, and the next index
  unfoldable pub next : TrackerDataValue A → ℕ → Option A × ℕ
  next d zero = (some d.original, 1)
  next d (suc i) = elim d.mods [
    | none ↦ (none, suc i)
    | some ms ↦ if ltb i (length ms) then (get_elem? ms i, suc (suc i)) else (none, suc i)
  ]

  -- what a loop over the iterator sees from an index on, as far as the fuel goes
  unfoldable pub items_from : ℕ → TrackerDataValue A → ℕ → List A
  unfolding next
  items_from zero d i = []
  items_from (suc fuel) d i =
      let (item, i') = next d i in
      let rest = items_from fuel d i' in elim item [ none ↦ [] | some a ↦ a ∷ rest ]

  -- IntoIterator for TrackerDataValue: as many items as there are values, and the end
  unfoldable pub into_iter : TrackerDataValue A → List A
  into_iter d = items_from (suc (suc (length (unwrap_or d.mods [])))) d 0

  -- TrackerDataValue<JsonValue>::size, with the length of the text of a value
  unfoldable pub size : (A → ℕ) → TrackerDataValue A → ℕ
  size text_len d = sum (map text_len (into_iter d))
