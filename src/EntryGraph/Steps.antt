-- ===== src/EntryGraph/Steps.antt =====
-- What every operation that builds the graph does to the nodes that are there and to the maps.
use ift_encoder.Prelude.{
  In, ℕ, ◌^◌, ◌<◌, ◌≤◌, ◌≡◌, ◌≢◌, ◌⊎◌, sym, ap, ◌∙◌, Bool, true, false, List, Option, none, some,
  length, arith, Bool-cases, inl, inr, ◌==◌, ==_iff,
}
use mathlib.Core.Path.{subst}
use ift_encoder.IntSet.Defs.{HbSet}
use ift_encoder.Condition.Defs.{ActivationCondition}
use ift_encoder.Condition.Semantics.{activates}
use ift_encoder.EntryGraph.Coverage.{Kind, Containers, Coverage, Request, meets_segment, all_empty}
use ift_encoder.EntryGraph.Nodes.{
  mode_none, EntryNode, EntryGraph, node_id_overflow, conflicting_patch_mappings, missing_segment,
  out_of_fuel, Outcome, done, failed, bind, node_at,
}
use ift_encoder.EntryGraph.Meaning.{
  is_branch, Means, leaf, decided, undecided, Means-kept, Same, Same-trans,
}

module _ (hb : HbSet) (box : Containers) where
  -- An operation ends with a result of which `P` holds, or with the overflow of the node ids, when
  -- there are 2^32 nodes.
  abbrev pub Yields : {A : Type 0} → Outcome hb box A → (A → EntryGraph hb box → Type 0) → Type 0
  Yields (done a g) P = P a g
  Yields (failed node_id_overflow g) P = 2 ^ 32 ≤ length g.nodes
  Yields (failed conflicting_patch_mappings g) P = ⊥
  Yields (failed missing_segment g) P = ⊥
  Yields (failed out_of_fuel g) P = ⊥

  pub Yields-bind :
      {A B : Type 0} (o : Outcome hb box A) (next : A → EntryGraph hb box → Outcome hb box B)
      → (P : A → EntryGraph hb box → Type 0) (Q : B → EntryGraph hb box → Type 0) → Yields o P
      → ((a : A) (g : EntryGraph hb box) → P a g → Yields (next a g) Q)
      → Yields (bind hb box o next) Q
  unfolding bind
  Yields-bind (done a g) next P Q h k = k a g h
  Yields-bind (failed node_id_overflow g) next P Q h k = h
  Yields-bind (failed conflicting_patch_mappings g) next P Q h k = h
  Yields-bind (failed missing_segment g) next P Q h k = h
  Yields-bind (failed out_of_fuel g) next P Q h k = h

  pub Yields-map :
      {A : Type 0} (o : Outcome hb box A) (P Q : A → EntryGraph hb box → Type 0)
      → Yields o P
      → ((a : A) (g : EntryGraph hb box) → P a g → Q a g)
      → Yields o Q
  Yields-map (done a g) P Q h k = k a g h
  Yields-map (failed node_id_overflow g) P Q h k = h
  Yields-map (failed conflicting_patch_mappings g) P Q h k = h
  Yields-map (failed missing_segment g) P Q h k = h
  Yields-map (failed out_of_fuel g) P Q h k = h

  -- The maps are the same.
  pub record SameMaps (g h : EntryGraph hb box) : Type 0 where
    pub same_mappings : h.patch_mappings ≡ g.patch_mappings
    pub same_encodings : h.patch_encodings ≡ g.patch_encodings
    pub same_conditions : h.condition_to_node_id ≡ g.condition_to_node_id
    pub same_parts : h.part_to_node_id ≡ g.part_to_node_id

  -- The nodes other than `n` are the same.
  abbrev pub Others : ℕ → EntryGraph hb box → EntryGraph hb box → Type 0
  Others n g h =
      (id : ℕ)
      → id < length g.nodes
      → id ≢ n
      → (id < length h.nodes) × Same hb box (node_at hb box g.nodes id) (node_at hb box h.nodes id)

  module _ (r : Request box) (segments : ℕ → Option (Coverage box)) where
    -- A segment is active when the request meets one of its sets.
    unfoldable pub active : ℕ → Bool
    active s = elim (segments s) [ none ↦ false | some segment ↦ meets_segment box r segment ]

    abbrev pub Pending : ℕ → EntryGraph hb box → Type 0
    Pending n g = (b : Bool) → Means hb box r g.nodes n b → ⊥

    pub Means-lt :
        (nodes : List (EntryNode hb box)) (id : ℕ) (b : Bool)
        → Means hb box r nodes id b
        → id < length nodes
    Means-lt nodes _ _ (leaf id b l m h f e) = l
    Means-lt nodes _ _ (decided id c b l m h d e) = l
    Means-lt nodes _ _ (undecided id c b l m h u e) = l

    pub Pending-plain :
        (g : EntryGraph hb box) (n : ℕ)
        → (node_at hb box g.nodes n).child_mode ≡ mode_none
        → all_empty box (node_at hb box g.nodes n).coverage ≡ true
        → Pending n g
    unfolding is_branch
    Pending-plain g n m e _ (leaf _ b l m' h f e') = cc
    Pending-plain g n m e _ (decided _ c b l m' h d e') = cc (ap is_branch m)
    Pending-plain g n m e _ (undecided _ c b l m' h u e') = cc (ap is_branch m)

    pub Pending-childless :
        (g : EntryGraph hb box) (n : ℕ)
        → is_branch (node_at hb box g.nodes n).child_mode ≡ true
        → ((c : ℕ) → hb.has (node_at hb box g.nodes n).children_ids c ≡ false)
        → Pending n g
    unfolding is_branch
    Pending-childless g n m e _ (leaf _ b l m' h f e') = cc (ap is_branch m')
    Pending-childless g n m e _ (decided _ c b l m' h d e') = cc (e c)
    Pending-childless g n m e _ (undecided _ c b l m' h u e') = cc (e c)

    -- The node means whether the condition activates.
    abbrev pub Holds : ActivationCondition hb → ℕ → EntryGraph hb box → Type 0
    Holds c id g = Means hb box r g.nodes id (activates hb active c)

    abbrev pub Exempt : Type 1
    Exempt = ActivationCondition hb → ℕ → Type 0

    abbrev pub nothing : Exempt
    nothing c id = ⊥

    -- From `g` to `h` the nodes below `b` are the same, the nodes that have a meaning keep it, and
    -- the maps gain only entries that hold, but for those that are exempt.
    pub record Step (exempt : Exempt) (b : ℕ) (g h : EntryGraph hb box) : Type 0 where
      pub below :
          (id : ℕ)
          → id < b
          → (id < length h.nodes)
            × Same hb box (node_at hb box g.nodes id) (node_at hb box h.nodes id)
      pub grown : length g.nodes ≤ length h.nodes
      pub kept : (id : ℕ) (v : Bool) → Means hb box r g.nodes id v → Means hb box r h.nodes id v
      pub mappings : h.patch_mappings ≡ g.patch_mappings
      pub encodings : h.patch_encodings ≡ g.patch_encodings
      pub known :
          (c : ActivationCondition hb) (id : ℕ)
          → In (c, id) g.condition_to_node_id
          → In (c, id) h.condition_to_node_id
      pub added :
          (c : ActivationCondition hb) (id : ℕ)
          → In (c, id) h.condition_to_node_id
          → In (c, id) g.condition_to_node_id ⊎ Holds c id h ⊎ exempt c id
      pub added_parts :
          (k : Kind) (v : box.Value k) (id : ℕ)
          → In (v, id) (h.part_to_node_id k)
          → In (v, id) (g.part_to_node_id k) ⊎ Means hb box r h.nodes id (r.meets k v)

    pub Step-trans :
        (exempt : Exempt) (b c : ℕ) (f g h : EntryGraph hb box)
        → b ≤ c
        → Step exempt b f g
        → Step exempt c g h
        → Step exempt b f h
    Step-trans exempt b c f g h le s t = record {
      below = λ id l.
          let (l', same) = s.below id l in
          let (l2, same') = t.below id (omega arith) in (l2, Same-trans hb box _ _ _ same same');
      grown = omega (arith, s.grown, t.grown);
      kept = λ id v m. t.kept id v (s.kept id v m);
      mappings = t.mappings ∙ s.mappings;
      encodings = t.encodings ∙ s.encodings;
      known = λ c id i. t.known c id (s.known c id i);
      added = λ c id i. elim (t.added c id i) [
        | inl j ↦ elim (s.added c id j) [
          | inl k ↦ inl k
          | inr (inl k) ↦ inr (inl (t.kept id _ k))
          | inr (inr k) ↦ inr (inr k)
        ]
        | inr j ↦ inr j
      ];
      added_parts = λ k v id i. elim (t.added_parts k v id i) [
        | inl j ↦ elim (s.added_parts k v id j) [ inl k ↦ inl k | inr k ↦ inr (t.kept id _ k) ]
        | inr j ↦ inr j
      ];
    }

    -- A change of one node that has no meaning.
    pub Step-others :
        (exempt : Exempt) (b n : ℕ) (g h : EntryGraph hb box)
        → Others n g h
        → SameMaps g h
        → Pending n g
        → b ≤ n
        → b ≤ length g.nodes
        → length g.nodes ≤ length h.nodes
        → Step exempt b g h
    Step-others exempt b n g h others maps pending le in_range grown = record {
      below = λ id l. others id (omega arith) (λ e. omega (arith, e));
      grown = grown;
      kept = Means-kept hb box r g.nodes h.nodes (λ id v m. elim (Bool-cases (id == n)) [
        | inl e ↦ absurd (pending v (subst (λ x. Means hb box r g.nodes x v) ((==_iff id n).0 e) m))
        | inr e ↦ others id (Means-lt g.nodes id v m) (λ q. ground (arith, q))
      ]);
      mappings = maps.same_mappings;
      encodings = maps.same_encodings;
      known = λ c id i. subst (In (c, id)) (sym maps.same_conditions) i;
      added = λ c id i. inl (subst (In (c, id)) maps.same_conditions i);
      added_parts = λ k v id i. inl (subst (λ m. In (v, id) (m k)) maps.same_parts i);
    }
