-- ===== src/Trackers/Tags.antt =====
-- src/trackers/api_ext.rs: the tags of a tracker and of a filter.
use retrack.Prelude.{
  ltb, if◌then◌else◌, Bool-cases, any, ℕ, String, len, ◌≡◌, refl, ap, inl, inr, Bool, false, ◌||◌,
  List, [], ◌∷◌, map, arith, str_eq, eq_iff,
}
use retrack.Error.{Result, ok, err, client, bad_tag}
use retrack.Env.{Env}

abbrev pub max_tracker_tag_length : ℕ
max_tracker_tag_length = 50

abbrev pub max_tracker_tags_count : ℕ
max_tracker_tags_count = 20

-- `collect::<HashSet<_>>()`. The order in which a `HashSet` is iterated is not specified: here each
-- text stands where it comes last.
unfoldable pub collect_set : List String → List String
collect_set [] = []
collect_set (t ∷ ts) = let rest = collect_set ts in if any (str_eq t) rest then rest else t ∷ rest

unfoldable pub normalize_tracker_tags : Env → List String → List String
unfolding collect_set
normalize_tracker_tags env tags = collect_set (map env.trim_to_lowercase tags)

abbrev bad_text : String → Bool
bad_text tag = str_eq tag "" || ltb max_tracker_tag_length (len tag)

unfoldable pub validate_tracker_tags : List String → Result Unit
validate_tracker_tags tags = if any bad_text tags then err (client bad_tag) else ok tt

-- No text stands twice.
abbrev pub NoRepeat : List String → Type 0
NoRepeat [] = Unit
NoRepeat (t ∷ ts) = (any (str_eq t) ts ≡ false) × NoRepeat ts

collect_set-NoRepeat : (ts : List String) → NoRepeat (collect_set ts)
unfolding collect_set
collect_set-NoRepeat [] = tt
collect_set-NoRepeat (t ∷ ts) = ground (arith, collect_set-NoRepeat ts)

any-collect_set :
    (t : String) (ts : List String) → any (str_eq t) (collect_set ts) ≡ any (str_eq t) ts
unfolding collect_set
any-collect_set t [] = refl
any-collect_set t (x ∷ ts) = elim (Bool-cases (any (str_eq x) (collect_set ts))) [
  | inr new ↦ rw new (ap (λ b. str_eq t x || b) (any-collect_set t ts))
  | inl old ↦ rw old (elim (Bool-cases (str_eq t x)) [
    | inr other ↦ rw other (any-collect_set t ts)
    | inl same ↦ rw (same, (eq_iff t x).0 same) old
  ])
]

-- Normalised tags are the trimmed and lowercased tags that were given, each of them once.
pub normalize_tracker_tags-NoRepeat :
    (env : Env) (tags : List String)
    → NoRepeat (normalize_tracker_tags env tags)
      × ((t : String)
          → any (str_eq t) (normalize_tracker_tags env tags)
            ≡ any (str_eq t) (map env.trim_to_lowercase tags))
unfolding normalize_tracker_tags
normalize_tracker_tags-NoRepeat env tags = (
  collect_set-NoRepeat (map env.trim_to_lowercase tags),
  λ t. any-collect_set t (map env.trim_to_lowercase tags),
)
