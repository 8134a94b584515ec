-- ===== src/Types/DataValue/Items.antt =====
-- What the iterator over the values of a revision yields.
use retrack.Prelude.{
  ltb, length, drop, get_elem?, last?, unwrap_or, map, ℕ, zero, suc, ◌+◌, ◌<◌, ◌≡◌, refl, ap, sym,
  ◌∙◌, inl, inr, ◌⊎◌, true, false, Option, none, some, List, [], ◌∷◌, arith,
}
use retrack.Types.DataValue.{TrackerDataValue, next, items_from, into_iter, value, size, sum}

module _ {ℓ} {A : Type ℓ} where
  -- the end, or the element at an index
  at_index :
      (xs : List A) (i : ℕ)
      → ((ltb i (length xs) ≡ false) × (drop i xs ≡ []))
        ⊎ ((x : A) × (ltb i (length xs) ≡ true)
            × (get_elem? xs i ≡ some x)
            × (drop i xs ≡ x ∷ drop (suc i) xs))
  at_index [] zero = inl (refl, refl)
  at_index [] (suc i) = inl (ground arith, refl)
  at_index (x ∷ xs) zero = inr (x, ground arith, refl, refl)
  at_index (x ∷ xs) (suc i) = elim (at_index xs i) [
    | inl (e, d) ↦ inl (ground arith, d)
    | inr (y, e, g, d) ↦ inr (y, ground arith, g, d)
  ]

  abbrev with_mods : A → List A → TrackerDataValue A
  with_mods o ms = record { original = o; mods = some ms }

  next-some :
      (i : ℕ) (o x : A) (ms : List A)
      → ltb i (length ms) ≡ true
      → get_elem? ms i ≡ some x
      → next (with_mods o ms) (suc i) ≡ (some x, suc (suc i))
  unfolding next
  next-some i o x ms e g = rw (e, g) refl

  next-none :
      (i : ℕ) (o : A) (ms : List A)
      → ltb i (length ms) ≡ false
      → next (with_mods o ms) (suc i) ≡ (none, suc i)
  unfolding next
  next-none i o ms e = rw e refl

  -- a loop behind an answer of the iterator
  abbrev proceed : ℕ → TrackerDataValue A → Option A × ℕ → List A
  proceed fuel d (item, i) = elim item [ none ↦ [] | some a ↦ a ∷ items_from fuel d i ]

  items_from-drop :
      (fuel i : ℕ) (o : A) (ms : List A)
      → length ms < i + fuel
      → items_from fuel (with_mods o ms) (suc i) ≡ drop i ms
  unfolding items_from
  items_from-drop zero i o ms h = elim (at_index ms i) [
    | inl (e, d) ↦ sym d
    | inr (x, e, g, d) ↦ absurd (ground arith)
  ]
  items_from-drop (suc fuel) i o ms h = elim (at_index ms i) [
    | inl (e, d) ↦
        ap (λ (n : Option A × ℕ). proceed fuel (with_mods o ms) n) (next-none i o ms e) ∙ sym d
    | inr (x, e, g, d) ↦
        ap (λ (n : Option A × ℕ). proceed fuel (with_mods o ms) n) (next-some i o x ms e g)
        ∙ ap (λ (xs : List A). x ∷ xs) (items_from-drop fuel (suc i) o ms (omega (arith, h)))
        ∙ sym d
  ]

  all_of :
      (o : A) (m : Option (List A))
      → into_iter (record { original = o; mods = m }) ≡ o ∷ unwrap_or m []
  unfolding into_iter items_from next
  all_of o none = refl
  all_of o (some ms) =
      ap (λ (xs : List A). o ∷ xs) (items_from-drop (suc (length ms)) 0 o ms (omega arith))

  last_of_more : (x : A) (xs : List A) → last? (x ∷ xs) ≡ some (unwrap_or (last? xs) x)
  last_of_more x [] = refl
  last_of_more x (y ∷ xs) =
      let e = last_of_more y xs in e ∙ ap (λ (o : Option A). some (unwrap_or o x)) (sym e)

  last_of :
      (o : A) (m : Option (List A))
      → last? (o ∷ unwrap_or m []) ≡ some (value (record { original = o; mods = m }))
  unfolding value
  last_of o none = refl
  last_of o (some ms) = last_of_more o ms

  -- The iterator over the values of a revision yields the original value and then the modifications in
  -- their order; the size is the sum over all of them, and the last one is the value of the revision.
  pub into_iter_all :
      (text_len : A → ℕ) (d : TrackerDataValue A)
      → (into_iter d ≡ d.original ∷ unwrap_or d.mods [])
        × (size text_len d ≡ text_len d.original + sum (map text_len (unwrap_or d.mods [])))
        × (last? (into_iter d) ≡ some (value d))
  unfolding size
  into_iter_all text_len d =
      let all = all_of d.original d.mods in (all, rw all refl, rw all (last_of d.original d.mods))
