-- ===== src/Db/RawRevision.antt =====
-- src/trackers/database_ext/raw_tracker_data_revision.rs: a row of `trackers_data` and its
-- conversion to and from a revision. The bytes of the column `data` have the type `Stored`.
use retrack.Prelude.{
  Option-cases, traverse, and_then, map_option, unwrap_or, ◌≡◌, refl, ◌≢◌, ◌∙◌, ap, String, Option,
  none, some, List, [], ◌∷◌, ◌++◌, map, inl, inr, arith,
}
use retrack.Types.{TrackerDataRevision, Json, Uuid, OffsetDateTime}
use retrack.Types.DataValue.{TrackerDataValue, new, add_mod}

pub record RawTrackerDataRevision (Stored : Type 0) : Type 0 where
  pub id : Uuid
  pub tracker_id : Uuid
  pub content : Stored
  pub created_at : OffsetDateTime

-- `postcard` on a list of texts, and `serde_json`
pub record Texts (Stored : Type 0) : Type 0 where
  pub to_stdvec : List String → Option Stored
  pub from_bytes : Stored → Option (List String)
  pub to_string : Json → String
  pub from_str : String → Option Json

pub record IsReadable {Stored : Type 0} (c : Texts Stored) : Type 0 where
  pub texts : (ts : List String) (s : Stored) → c.to_stdvec ts ≡ some s → c.from_bytes s ≡ some ts
  pub json : (j : Json) → c.from_str (c.to_string j) ≡ some j

-- `into_iter()`: the original value, then the modifications
unfoldable pub values : TrackerDataValue Json → List Json
values d = d.original ∷ unwrap_or d.mods []

-- `for_each(|value| data.add_mod(value))`
unfoldable pub add_mods : TrackerDataValue Json → List Json → TrackerDataValue Json
add_mods d [] = d
add_mods d (v ∷ vs) = add_mods (add_mod d v) vs

-- `pop_front` and the loop behind it
abbrev value_of : List Json → Option (TrackerDataValue Json)
value_of [] = none
value_of (v ∷ vs) = some (add_mods (new v) vs)

module _ {Stored : Type 0} (c : Texts Stored) where
  -- TryFrom<&TrackerDataRevision> for RawTrackerDataRevision
  unfoldable pub raw_revision_of : TrackerDataRevision → Option (RawTrackerDataRevision Stored)
  unfolding values
  raw_revision_of d =
      map_option
        (λ s. record {
          id = d.id;
          tracker_id = d.tracker_id;
          content = s;
          created_at = d.created_at;
        })
        (c.to_stdvec (map c.to_string (values d.value)))

  -- TryFrom<RawTrackerDataRevision> for TrackerDataRevision
  unfoldable pub revision_of : RawTrackerDataRevision Stored → Option TrackerDataRevision
  unfolding add_mods new
  revision_of raw = and_then (c.from_bytes raw.content) λ texts.
      and_then (traverse c.from_str texts) λ vs.
        map_option
          (λ value. record {
            id = raw.id;
            tracker_id = raw.tracker_id;
            value = value;
            created_at = raw.created_at;
          })
          (value_of vs)

append_assoc_one :
    (xs : List Json) (v : Json) (vs : List Json) → (xs ++ v ∷ []) ++ vs ≡ xs ++ v ∷ vs
append_assoc_one [] v vs = refl
append_assoc_one (x ∷ xs) v vs = ap (◌∷◌ x) (append_assoc_one xs v vs)

append_nil : (xs : List Json) → xs ++ [] ≡ xs
append_nil [] = refl
append_nil (x ∷ xs) = ap (◌∷◌ x) (append_nil xs)

add_mods-some :
    (o : Json) (ms vs : List Json)
    → add_mods (record { original = o; mods = some ms }) vs
      ≡ record { original = o; mods = some (ms ++ vs) }
unfolding add_mods add_mod
add_mods-some o ms [] = rw (append_nil ms) refl
add_mods-some o ms (v ∷ vs) = add_mods-some o (ms ++ v ∷ []) vs ∙ rw (append_assoc_one ms v vs) refl

-- An empty list of modifications is read back as none at all.
value_back :
    (o : Json) (m : Option (List Json))
    → m ≢ some []
    → add_mods (new o) (unwrap_or m []) ≡ record { original = o; mods = m }
unfolding add_mods add_mod new
value_back o none h = refl
value_back o (some []) h = absurd (h refl)
value_back o (some (v ∷ vs)) h = add_mods-some o (v ∷ []) vs

module _ {Stored : Type 0} (c : Texts Stored) (readable : IsReadable c) where
  texts_back : (vs : List Json) → traverse c.from_str (map c.to_string vs) ≡ some vs
  texts_back [] = refl
  texts_back (v ∷ vs) = rw (readable.json v, texts_back vs) refl

  -- A revision that can be written to a row is read back from the row unchanged, unless it has an
  -- empty list of modifications. For packages that read back what they write.
  pub raw_revision_of-revision_of :
      (d : TrackerDataRevision) (raw : RawTrackerDataRevision Stored)
      → d.value.mods ≢ some []
      → raw_revision_of c d ≡ some raw
      → revision_of c raw ≡ some d
  unfolding raw_revision_of revision_of values
  raw_revision_of-revision_of d raw h e =
      elim (Option-cases (c.to_stdvec (map c.to_string (values d.value)))) [
        | inl bad ↦ absurd (ground arith)
        | inr (s, stored) ↦ ground (
          arith,
          readable.texts (map c.to_string (values d.value)) s,
          texts_back (values d.value),
          value_back d.value.original d.value.mods h,
        )
      ]
