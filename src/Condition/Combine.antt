-- ===== src/Condition/Combine.antt =====
-- ActivationCondition::Or.
use ift_encoder.Prelude.{true, false, List, [], ◌∷◌, ◌++◌}
use ift_encoder.IntSet.{HbSet}
use ift_encoder.Condition.Defs.{ActivationCondition, blank, simplify, set_less}

module _ (hb : HbSet) where
  open hb use {Set, union}

  -- The groups that two conditions share, and those that only one has.
  pub record Split : Type 0 where
    pub shared : List Set
    pub a_unique : List Set
    pub b_unique : List Set

  -- The three while loops, over the two iterators.
  unfoldable pub split : List Set → List Set → Split
  split [] bs = record { shared = []; a_unique = []; b_unique = bs }
  split (a ∷ as') [] = record { shared = []; a_unique = a ∷ as'; b_unique = [] }
  split (a ∷ as') (b ∷ bs) = elim (set_less hb a b) [
    | true ↦ let s = split as' (b ∷ bs) in record s { a_unique = a ∷ s.a_unique }
    | false ↦ elim (set_less hb b a) [
      | true ↦ let s = split (a ∷ as') bs in record s { b_unique = b ∷ s.b_unique }
      | false ↦ let s = split as' bs in record s { shared = a ∷ s.shared }
    ]
  ]

  unfoldable pub unions : Set → List Set → List Set
  unions a [] = []
  unions a (b ∷ bs) = union a b ∷ unions a bs

  -- The loop over both lists of unique groups.
  unfoldable pub cross : List Set → List Set → List Set
  unfolding unions
  cross [] bs = []
  cross (a ∷ as') bs = unions a bs ++ cross as' bs

  unfoldable pub or_groups : Split → List Set
  or_groups s = simplify hb (s.shared ++ cross s.a_unique s.b_unique)

  -- No group is unique on one side: the shared groups are all.
  unfoldable pub join_split : List Set → List Set → Split → List Set
  unfolding or_groups
  join_split [] _ s = s.shared
  join_split (a ∷ as') [] s = s.shared
  join_split (a ∷ as') (b ∷ bs) s = or_groups s

  -- ActivationCondition::Or
  unfoldable pub or_condition :
      ActivationCondition hb → ActivationCondition hb → ActivationCondition hb
  unfolding split join_split blank
  or_condition a b =
      let s = split a.conditions b.conditions in
      record (blank hb) {
        is_fallback = a.is_fallback;
        is_exclusive = false;
        activated = a.activated;
        prefetches = a.prefetches;
        encoding = a.encoding;
        conditions = join_split s.a_unique s.b_unique s;
      }
