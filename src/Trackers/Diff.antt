-- ===== src/Trackers/Diff.antt =====
-- src/trackers/tracker_data_revisions_diff.rs: each revision as its difference from the one before.
use retrack.Prelude.{
  ltb, if◌then◌else◌, Option-cases, length, and_then, map_option, String, Bool, ◌≡◌, refl, subst,
  Option, none, some, List, [], ◌∷◌, ◌∙◌, ◌++◌, inl, inr, arith,
}
use mathlib.Core.List.{append-nil}
use retrack.Types.{TrackerDataRevision, Json}
use retrack.Types.DataValue.{new, value}

-- `serde_json`, the rendering of a value by `handlebars`, and the text diff of `similar`
pub record Printing : Type 0 where
  pub to_string : Json → String
  pub from_str : String → Option Json
  -- is_object, is_array or is_null
  pub is_nested : Json → Bool
  pub to_string_pretty : Json → Option String
  pub render : Json → String
  -- from the previous text to the current one
  pub unified_diff : String → String → String
  pub json_string : String → Json

-- `rev()`
unfoldable pub rev_onto : {A : Type 0} → List A → List A → List A
rev_onto [] acc = acc
rev_onto (x ∷ xs) acc = rev_onto xs (x ∷ acc)

module _ (p : Printing) where
  -- tracker_data_revision_pretty_print
  unfoldable pub pretty_print : String → Option String
  pretty_print text =
      and_then (p.from_str text)
        (λ json. if p.is_nested json then p.to_string_pretty json else some (p.render json))

  abbrev printed : TrackerDataRevision → Option String
  printed r = pretty_print (p.to_string (value r.value))

  -- the current revision with the difference from the previous one in place of its data
  unfoldable pub diff_of : TrackerDataRevision → TrackerDataRevision → Option TrackerDataRevision
  unfolding pretty_print value new
  diff_of current previous = and_then (printed current) λ c.
      map_option (λ q. record current { value = new (p.json_string (p.unified_diff q c)) })
        (printed previous)

  -- the `while let` loop, over the newest revision first
  unfoldable pub diff_newest_first : List TrackerDataRevision → Option (List TrackerDataRevision)
  diff_newest_first [] = some []
  diff_newest_first (current ∷ []) = some (current ∷ [])
  diff_newest_first (current ∷ previous ∷ rest) =
      and_then (diff_of current previous)
        (λ d. map_option (λ ds. d ∷ ds) (diff_newest_first (previous ∷ rest)))

  unfoldable pub tracker_data_revisions_diff :
      List TrackerDataRevision → Option (List TrackerDataRevision)
  unfolding diff_newest_first rev_onto
  tracker_data_revisions_diff revisions =
      if ltb (length revisions) 2
      then some revisions
      else map_option (λ ds. rev_onto ds []) (diff_newest_first (rev_onto revisions []))

  -- The oldest of the revisions is unchanged, and each later one is its difference from the one
  -- before it.
  abbrev pub AreDiffs :
      Option TrackerDataRevision → List TrackerDataRevision → List TrackerDataRevision → Type 0
  AreDiffs before [] [] = Unit
  AreDiffs before [] (d ∷ ds) = ⊥
  AreDiffs before (r ∷ rs) [] = ⊥
  AreDiffs none (r ∷ rs) (d ∷ ds) = (d ≡ r) × AreDiffs (some r) rs ds
  AreDiffs (some previous) (r ∷ rs) (d ∷ ds) =
      (diff_of r previous ≡ some d) × AreDiffs (some r) rs ds

  rev_onto-AreDiffs :
      (x : TrackerDataRevision) (xs acc : List TrackerDataRevision)
      (ds dacc : List TrackerDataRevision)
      → diff_newest_first (x ∷ xs) ≡ some ds
      → AreDiffs (some x) acc dacc
      → AreDiffs none (rev_onto (x ∷ xs) acc) (rev_onto ds dacc)
  unfolding diff_newest_first rev_onto
  rev_onto-AreDiffs x [] acc ds dacc e h =
      let same : x ∷ [] ≡ ds = ground arith in
      subst (λ (l : List TrackerDataRevision). AreDiffs none (x ∷ acc) (rev_onto l dacc)) same
        (refl, h)
  rev_onto-AreDiffs x (y ∷ rest) acc ds dacc e h = elim (Option-cases (diff_of x y)) [
    | inl bad ↦ absurd (ground arith)
    | inr (d, good) ↦ elim (Option-cases (diff_newest_first (y ∷ rest))) [
      | inl bad ↦ absurd (ground arith)
      | inr (es, more) ↦
          let same : d ∷ es ≡ ds = ground arith in
          subst
            (λ (l : List TrackerDataRevision).
              AreDiffs none (rev_onto (y ∷ rest) (x ∷ acc)) (rev_onto l dacc))
            same (rev_onto-AreDiffs y rest (x ∷ acc) es (d ∷ dacc) more (good, h))
    ]
  ]

rev_onto-rev_onto :
    (xs acc ys : List TrackerDataRevision) → rev_onto (rev_onto xs acc) ys ≡ rev_onto acc (xs ++ ys)
unfolding rev_onto
rev_onto-rev_onto [] acc ys = refl
rev_onto-rev_onto (x ∷ xs) acc ys = rev_onto-rev_onto xs (x ∷ acc) ys

module _ (p : Printing) where
  diff-AreDiffs_of :
      (revisions reversed : List TrackerDataRevision) (out : List TrackerDataRevision)
      → rev_onto reversed [] ≡ revisions
      → map_option (λ ds. rev_onto ds []) (diff_newest_first p reversed) ≡ some out
      → AreDiffs p none revisions out
  unfolding rev_onto diff_newest_first
  diff-AreDiffs_of revisions [] out back e =
      let none_there : [] ≡ out = ground arith in
      subst (λ (l : List TrackerDataRevision). AreDiffs p none revisions l) none_there
        (subst (λ (l : List TrackerDataRevision). AreDiffs p none l []) back tt)
  diff-AreDiffs_of revisions (x ∷ xs) out back e =
      elim (Option-cases (diff_newest_first p (x ∷ xs))) [
        | inl bad ↦ absurd (ground arith)
        | inr (ds, good) ↦
            let same : rev_onto ds [] ≡ out = ground arith in
            subst (λ (l : List TrackerDataRevision). AreDiffs p none l out) back
              (subst (λ (l : List TrackerDataRevision). AreDiffs p none (rev_onto (x ∷ xs) []) l)
                same (rev_onto-AreDiffs p x xs [] ds [] good tt))
      ]

  -- Where the difference can be computed, its oldest revision is the oldest one unchanged, and each
  -- later one is that revision with the difference from the one before it in place of its data.
  pub tracker_data_revisions_diff-AreDiffs :
      (revisions out : List TrackerDataRevision)
      → tracker_data_revisions_diff p revisions ≡ some out
      → AreDiffs p none revisions out
  unfolding tracker_data_revisions_diff
  tracker_data_revisions_diff-AreDiffs [] out e =
      let same : [] ≡ out = ground arith in
      subst (λ (l : List TrackerDataRevision). AreDiffs p none [] l) same tt
  tracker_data_revisions_diff-AreDiffs (r ∷ []) out e =
      let same : r ∷ [] ≡ out = ground arith in
      subst (λ (l : List TrackerDataRevision). AreDiffs p none (r ∷ []) l) same (refl, tt)
  tracker_data_revisions_diff-AreDiffs (r ∷ s ∷ rest) out e =
      diff-AreDiffs_of (r ∷ s ∷ rest) (rev_onto (r ∷ s ∷ rest) []) out
        (rev_onto-rev_onto (r ∷ s ∷ rest) [] [] ∙ append-nil (r ∷ s ∷ rest)) (ground arith)
