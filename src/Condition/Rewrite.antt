-- ===== src/Condition/Rewrite.antt =====
-- ActivationCondition::Intersects, ReplaceSegments, RemoveIntersectingSubgroups and
-- NonCompositeSuperset.
use ift_encoder.Prelude.{
  ℕ, Bool, true, false, not, ◌&&◌, ◌||◌, List, [], ◌∷◌, map, if◌then◌else◌, Option, none, some,
  length, ◌==◌, ltb,
}
use ift_encoder.IntSet.{HbSet, intersects}
use ift_encoder.Condition.Defs.{
  ActivationCondition, blank, simplify, set_less, singleton, make_true, is_purely_conjunctive,
  is_purely_disjunctive, is_always_true,
}

module _ (hb : HbSet) where
  open hb use {Set, empty, add, subtract, has, population, is_empty, get_min, values}

  unfoldable pub any_intersects : List Set → Set → Bool
  any_intersects [] segments = false
  any_intersects (c ∷ cs) segments =
      if intersects hb c segments then true else any_intersects cs segments

  -- ActivationCondition::Intersects
  unfoldable pub condition_intersects : ActivationCondition hb → Set → Bool
  unfolding any_intersects
  condition_intersects c segments = any_intersects c.conditions segments

  -- What the loop of the fast path has gathered.
  pub record Scan : Type 0 where
    pub kept : List Set
    pub has_replace : Bool
    pub base_present : Bool

  unfoldable pub scan : ℕ → Set → List Set → Scan
  scan base segments [] = record { kept = []; has_replace = false; base_present = false }
  scan base segments (c ∷ cs) =
      let rest = scan base segments cs in
      if intersects hb c segments
      then record rest { has_replace = true }
      else record rest { kept = c ∷ rest.kept; base_present = has c base || rest.base_present }

  -- std::lower_bound and the insertion in front of it.
  unfoldable pub insert_sorted : Set → List Set → List Set
  insert_sorted c [] = c ∷ []
  insert_sorted c (d ∷ ds) = if set_less hb d c then d ∷ insert_sorted c ds else c ∷ d ∷ ds

  unfoldable pub with_base : ℕ → Scan → List Set
  unfolding insert_sorted singleton
  with_base base s =
      if s.has_replace && not s.base_present
      then insert_sorted (singleton hb base) s.kept
      else s.kept

  unfoldable pub replace_in : ℕ → Set → List Set → List Set
  replace_in base segments [] = []
  replace_in base segments (c ∷ cs) =
      (if intersects hb c segments then add (subtract c segments) base else c)
      ∷ replace_in base segments cs

  -- ActivationCondition::ReplaceSegments
  unfoldable pub replace_segments : ActivationCondition hb → ℕ → Set → ActivationCondition hb
  unfolding scan with_base replace_in
  replace_segments c base segments =
      if is_purely_conjunctive hb c
      then (let groups = with_base base (scan base segments c.conditions) in
          record (blank hb) {
            conditions = groups;
            activated = c.activated;
            prefetches = c.prefetches;
            is_fallback = c.is_fallback;
            is_exclusive = c.is_exclusive || length groups == 1;
            encoding = c.encoding;
          })
      else record c {
        conditions = simplify hb (replace_in base segments c.conditions);
        cached_hash = none;
      }

  unfoldable pub without : Set → List Set → List Set
  without segments [] = []
  without segments (c ∷ cs) =
      if intersects hb c segments then without segments cs else c ∷ without segments cs

  -- ActivationCondition::RemoveIntersectingSubgroups
  unfoldable pub remove_intersecting_subgroups :
      ActivationCondition hb → Set → ActivationCondition hb
  unfolding without make_true
  remove_intersecting_subgroups c segments = record (make_true hb 0) {
    activated = c.activated;
    prefetches = c.prefetches;
    encoding = c.encoding;
    is_fallback = c.is_fallback;
    is_exclusive = c.is_exclusive;
    conditions = without segments c.conditions;
  }

  -- The variables of the loop in NonCompositeSuperset; `keep` is the pointer, null at first.
  pub record Pick : Type 0 where
    pub conjunctive : Set
    pub highest_s : ℕ
    pub keep : Option Set

  -- `*sub_group.min()`, which is read only where the group is not empty.
  unfoldable pub insert_min : Option ℕ → Pick → Pick
  insert_min none p = p
  insert_min (some m) p = record p { conjunctive = add p.conjunctive m }

  unfoldable pub is_better : ℕ → Set → ℕ → Option Set → Bool
  is_better m group highest none = true
  is_better m group highest (some kept) =
      ltb highest m || (m == highest && ltb (population group) (population kept))

  unfoldable pub keep_better : Option ℕ → Set → Pick → Pick
  unfolding is_better
  keep_better none group p = p
  keep_better (some m) group p =
      if is_better m group p.highest_s p.keep
      then record p { highest_s = m; keep = some group }
      else p

  unfoldable pub pick_step : Pick → Set → Pick
  unfolding insert_min keep_better
  pick_step p group =
      if population group == 1
      then insert_min (get_min group) p
      else if not (is_empty p.conjunctive) || is_empty group
      then p
      else keep_better (get_min group) group p

  unfoldable pub pick_all : Pick → List Set → Pick
  unfolding pick_step
  pick_all p [] = p
  pick_all p (c ∷ cs) = pick_all (pick_step p c) cs

  unfoldable pub kept_group : Option Set → List Set
  kept_group none = []
  kept_group (some group) = group ∷ []

  unfoldable pub superset_groups : Pick → List Set
  unfolding kept_group singleton
  superset_groups p =
      if not (is_empty p.conjunctive)
      then map (singleton hb) (values p.conjunctive)
      else kept_group p.keep

  -- ActivationCondition::NonCompositeSuperset
  unfoldable pub non_composite_superset : ActivationCondition hb → ActivationCondition hb
  unfolding superset_groups pick_all
  non_composite_superset c =
      if is_purely_conjunctive hb c || is_purely_disjunctive hb c || is_always_true hb c
      then c
      else (let p =
            pick_all (record { conjunctive = empty; highest_s = 0; keep = none }) c.conditions in
          let groups = superset_groups p in
          record (blank hb) {
            is_fallback = c.is_fallback;
            is_exclusive =
                (if not (is_empty p.conjunctive) && length groups == 1
                  then true
                  else c.is_exclusive);
            conditions = groups;
            activated = c.activated;
            prefetches = c.prefetches;
            encoding = c.encoding;
          })
