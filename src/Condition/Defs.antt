-- ===== src/Condition/Defs.antt =====
-- The class ActivationCondition, its constructors and its operations. The class's hash function is
-- absl::HashOf, a parameter.
use ift_encoder.Prelude.{
  ℕ, Bool, true, false, ◌&&◌, ◌||◌, List, [], ◌∷◌, ◌++◌, map, Option, none, ltb, leb, ◌==◌,
  if◌then◌else◌, length,
}
use ift_encoder.IntSet.{HbSet, less}

-- ift/proto/patch_encoding.h
pub data PatchEncoding : Type 0 where
  default_encoding table_keyed_full table_keyed_partial glyph_keyed : PatchEncoding

module _ (hb : HbSet) where
  open hb use {Set, values, empty, add, union, subtract, has, population, is_subset, is_equal}

  -- The conditions are a conjunction of groups, and a group a disjunction of segments. `activated` is
  -- a vector that holds one patch at least: its first element, and the prefetches.
  pub record ActivationCondition : Type 0 where
    pub is_fallback : Bool
    pub is_exclusive : Bool
    pub conditions : List Set
    pub activated : ℕ
    pub prefetches : List ℕ
    pub encoding : PatchEncoding
    pub cached_hash : Option ℕ

  -- The private default constructor.
  unfoldable pub blank : ActivationCondition
  blank = record {
    is_fallback = false;
    is_exclusive = false;
    conditions = [];
    activated = 0;
    prefetches = [];
    encoding = glyph_keyed;
    cached_hash = none;
  }

  unfoldable pub singleton : ℕ → Set
  singleton x = add empty x

  unfoldable pub make_true : ℕ → ActivationCondition
  unfolding blank
  make_true patch = record blank { activated = patch }

  unfoldable pub exclusive_segment : ℕ → ℕ → ActivationCondition
  unfolding blank singleton
  exclusive_segment index patch = record blank {
    activated = patch;
    conditions = singleton index ∷ [];
    is_exclusive = true;
  }

  unfoldable pub and_segments : Set → ℕ → ActivationCondition
  unfolding blank singleton
  and_segments segments patch = record blank {
    activated = patch;
    conditions = map singleton (values segments);
  }

  unfoldable pub or_segments : Set → ℕ → Bool → ActivationCondition
  unfolding blank
  or_segments segments patch fallback = record blank {
    activated = patch;
    conditions = segments ∷ [];
    is_fallback = fallback;
  }

  -- std::sort by a comparison; elements that neither precede the other keep their order here.
  unfoldable pub insert_by : (Set → Set → Bool) → Set → List Set → List Set
  insert_by before c [] = c ∷ []
  insert_by before c (d ∷ ds) = if before d c then d ∷ insert_by before c ds else c ∷ d ∷ ds

  unfoldable pub sort_by : (Set → Set → Bool) → List Set → List Set
  unfolding insert_by
  sort_by before [] = []
  sort_by before (c ∷ cs) = insert_by before c (sort_by before cs)

  -- The inner loop of Simplify: marks what the group `c` makes redundant.
  unfoldable pub mark : Set → List Set → List Bool → List Bool
  mark c (d ∷ ds) (r ∷ rs) = (if r then true else is_subset c d) ∷ mark c ds rs
  mark c _ _ = []

  -- The outer loop, on the groups from `i` on and their marks.
  unfoldable pub find_redundant : List Set → List Bool → List Bool
  unfolding mark
  find_redundant (c ∷ cs) (r ∷ rs) = r ∷ find_redundant cs (if r then rs else mark c cs rs)
  find_redundant _ _ = []

  -- The compaction loop and the erase: the groups that are not marked.
  unfoldable pub unmarked : List Set → List Bool → List Set
  unmarked (c ∷ cs) (r ∷ rs) = if r then unmarked cs rs else c ∷ unmarked cs rs
  unmarked _ _ = []

  unfoldable pub no_marks : List Set → List Bool
  no_marks [] = []
  no_marks (c ∷ cs) = false ∷ no_marks cs

  -- IntSet::operator< and the comparison of sizes, as Simplify hands them to std::sort.
  unfoldable pub set_less : Set → Set → Bool
  set_less a b = less (values a) (values b)

  unfoldable pub smaller : Set → Set → Bool
  smaller a b = ltb (population a) (population b)

  unfoldable pub drop_redundant : List Set → List Set
  unfolding find_redundant unmarked no_marks
  drop_redundant cs = unmarked cs (find_redundant cs (no_marks cs))

  unfoldable pub simplify : List Set → List Set
  unfolding sort_by drop_redundant set_less smaller
  simplify cs =
      if leb (length cs) 1 then cs else sort_by set_less (drop_redundant (sort_by smaller cs))

  unfoldable pub composite_condition : List Set → ℕ → Bool → ActivationCondition
  unfolding blank simplify
  composite_condition groups patch fallback = record blank {
    activated = patch;
    conditions = simplify groups;
    is_fallback = fallback;
  }

  unfoldable pub clear_exclusive : ActivationCondition → ActivationCondition
  clear_exclusive c = record c { is_exclusive = false; cached_hash = none }

  unfoldable pub is_always_true : ActivationCondition → Bool
  is_always_true c = length c.conditions == 0

  unfoldable pub unitary : List Set → Bool
  unitary (c ∷ []) = population c == 1
  unitary _ = false

  unfoldable pub is_unitary : ActivationCondition → Bool
  unfolding unitary
  is_unitary c = unitary c.conditions

  unfoldable pub is_purely_disjunctive : ActivationCondition → Bool
  is_purely_disjunctive c = length c.conditions == 1

  -- The loop of IsPurelyConjunctive.
  unfoldable pub no_disjunction : List Set → Bool
  no_disjunction [] = true
  no_disjunction (c ∷ cs) = if ltb 1 (population c) then false else no_disjunction cs

  unfoldable pub is_purely_conjunctive : ActivationCondition → Bool
  unfolding no_disjunction
  is_purely_conjunctive c =
      if leb (length c.conditions) 1 then false else no_disjunction c.conditions

  -- ActivationCondition::And
  unfoldable pub and_condition : ActivationCondition → ActivationCondition → ActivationCondition
  unfolding simplify is_always_true is_unitary
  and_condition a b =
      let conditions = simplify (a.conditions ++ b.conditions) in
      let joined = record a { conditions = conditions } in
      record joined {
        is_exclusive =
            (a.is_exclusive || is_always_true a)
            && (b.is_exclusive || is_always_true b)
            && is_unitary joined;
        cached_hash = none;
      }
