-- ===== src/EntryGraph/Coverage.antt =====
-- The three sets of an entry: codepoints, feature tags and design space. They are a set of IntSet, an
-- absl::flat_hash_set and an absl::flat_hash_map, which are a parameter with their emptiness tests and
-- equality tests. A segment's SubsetDefinition is read as these three sets.
use ift_encoder.Prelude.{◌≡◌, Bool, true, not, ◌&&◌, ◌||◌}

pub data Kind : Type 0 where
  codepoints features design_space : Kind

pub record Containers : Type 1 where
  pub Value : Kind → Type 0
  pub no_value : (k : Kind) → Value k
  pub is_empty : (k : Kind) → Value k → Bool
  pub equal : (k : Kind) → Value k → Value k → Bool
  pub is_empty_no_value : (k : Kind) → is_empty k (no_value k) ≡ true
  pub equal_refl : (k : Kind) (v : Value k) → equal k v v ≡ true

module _ (box : Containers) where
  open box use {Value, no_value, is_empty, equal}

  abbrev pub Coverage : Type 0
  Coverage = (k : Kind) → Value k

  abbrev pub no_coverage : Coverage
  no_coverage = no_value

  -- What a client asks for: which sets it meets. Equal sets are met alike.
  pub record Request : Type 0 where
    pub meets : (k : Kind) → Value k → Bool
    pub meets_equal : (k : Kind) (v w : Value k) → equal k v w ≡ true → meets k v ≡ meets k w

  -- Whether the request meets some set of a segment.
  unfoldable pub meets_segment : Request → Coverage → Bool
  meets_segment r s =
      (not (is_empty codepoints (s codepoints)) && r.meets codepoints (s codepoints))
      || (not (is_empty features (s features)) && r.meets features (s features))
      || (not (is_empty design_space (s design_space)) && r.meets design_space (s design_space))

  -- Whether the request meets each set of an entry that is not empty.
  unfoldable pub meets_entry : Request → Coverage → Bool
  meets_entry r s =
      (is_empty codepoints (s codepoints) || r.meets codepoints (s codepoints))
      && (is_empty features (s features) || r.meets features (s features))
      && (is_empty design_space (s design_space) || r.meets design_space (s design_space))

  -- Whether all three sets are empty.
  unfoldable pub all_empty : Coverage → Bool
  all_empty s =
      is_empty codepoints (s codepoints)
      && is_empty features (s features)
      && is_empty design_space (s design_space)
