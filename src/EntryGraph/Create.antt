-- ===== src/EntryGraph/Create.antt =====
-- EntryGraph::Create.
use ift_encoder.Prelude.{
  In, ℕ, suc, ◌%◌, ◌^◌, ◌≤◌, ◌≡◌, refl, sym, ap, ◌∙◌, true, false, List, [], ◌∷◌, Option, none,
  some, All, arith,
}
use mathlib.Core.Path.{subst}
use ift_encoder.IntSet.Defs.{HbSet}
use ift_encoder.Condition.Defs.{ActivationCondition}
use ift_encoder.Condition.Semantics.{activates, activates-composite_condition}
use ift_encoder.EntryGraph.Coverage.{Containers, Coverage, Request}
use ift_encoder.EntryGraph.Nodes.{EntryGraph, normalize, condition_equal, find_key, find_condition}
use ift_encoder.EntryGraph.Build.{add_mapping, new_graph, put_patches, add_conditions, create_graph}
use ift_encoder.EntryGraph.Meaning.{Means}
use ift_encoder.EntryGraph.Steps.{Yields, Yields-bind, Yields-map, active, nothing}
use ift_encoder.EntryGraph.Parts.{PartsHold, PartsHold-Step, find_key-In}
use ift_encoder.EntryGraph.Mapped.{level, Mapped, CondsHold, CondsHold-Step}
use ift_encoder.EntryGraph.Equal.{condition_equal-activates}
use ift_encoder.EntryGraph.Groups.{Filled, Filled-normalize}
use ift_encoder.EntryGraph.Mapping.{add_mapping-Yields}
use ift_encoder.EntryGraph.Lookup.{
  Differs, Distinct, Differs-sym, found, found-own, found-other, found-In,
}

module _ (hb : HbSet) (box : Containers) where
  module _ (r : Request box) (segments : ℕ → Option (Coverage box)) where
    level-le : (c : ActivationCondition hb) → level hb c ≤ 3
    unfolding level
    level-le c = ground arith

    -- The nodes in the maps match when they should.
    record AllHold (g : EntryGraph hb box) : Type 0 where
      conds : CondsHold hb box r segments 3 g
      parts : PartsHold hb box r segments (nothing hb box r segments) g

    Listed : EntryGraph hb box → ActivationCondition hb → Type 0
    Listed g c =
        (c' : ActivationCondition hb) × (id : ℕ) × In (c', id) g.condition_to_node_id
        × (condition_equal hb box (normalize hb box c) c' ≡ true)

    record Entered (g : EntryGraph hb box) (c : ActivationCondition hb) : Type 0 where
      listed : Listed g c
      patches : found hb box c g.patch_mappings ≡ some (c.activated ∷ c.prefetches)
      encoding : found hb box c g.patch_encodings ≡ some c.encoding

    abbrev Free : EntryGraph hb box → ActivationCondition hb → Type 0
    Free g c = (found hb box c g.patch_mappings ≡ none) × (found hb box c g.patch_encodings ≡ none)

    -- What one round of the loop does for the other conditions.
    record Round (c : ActivationCondition hb) (g : EntryGraph hb box) (h : EntryGraph hb box)
        : Type 0 where
      holds : AllHold h
      entered : Entered h c
      still : (d : ActivationCondition hb) → Differs hb box d c → Entered g d → Entered h d
      free : (d : ActivationCondition hb) → Differs hb box d c → Free g d → Free h d

    put_patches-Yields :
        (c : ActivationCondition hb) (f g : EntryGraph hb box) (id : ℕ)
        → Free f c
        → AllHold f
        → Mapped hb box r segments (normalize hb box c) f id g
        → Yields hb box (put_patches hb box c g) (λ u h. Round c f h)
    unfolding put_patches Listed
    put_patches-Yields c f g id free hold m =
        let free_patches : found hb box c g.patch_mappings ≡ none =
          ap (found hb box c) m.step.mappings ∙ free.0 in
        let free_encodings : found hb box c g.patch_encodings ≡ none =
          ap (found hb box c) m.step.encodings ∙ free.1 in
        rw (free_patches, free_encodings, Yields)
          record {
            holds = record {
              conds =
                  CondsHold-Step hb box r segments (nothing hb box r segments) 3 _ f g m.step
                    (λ c id e le. e) hold.conds;
              parts =
                  PartsHold-Step hb box r segments (nothing hb box r segments) _ f g m.step
                    hold.parts;
            };
            entered = record {
              listed = m.listed;
              patches = found-own hb box c (c.activated ∷ c.prefetches) g.patch_mappings;
              encoding = found-own hb box c c.encoding g.patch_encodings;
            };
            still = λ d apart e.
                let (d', j, i, same) = e.listed in
                record {
                  listed = (d', j, m.step.known d' j i, same);
                  patches =
                      found-other hb box d c (c.activated ∷ c.prefetches) g.patch_mappings apart
                      ∙ ap (found hb box d) m.step.mappings
                      ∙ e.patches;
                  encoding =
                      found-other hb box d c c.encoding g.patch_encodings apart
                      ∙ ap (found hb box d) m.step.encodings
                      ∙ e.encoding;
                };
            free = λ d apart e. (
              found-other hb box d c (c.activated ∷ c.prefetches) g.patch_mappings apart
                  ∙ ap (found hb box d) m.step.mappings
                  ∙ e.0,
              found-other hb box d c c.encoding g.patch_encodings apart
                  ∙ ap (found hb box d) m.step.encodings
                  ∙ e.1,
            );
          }

    All-zip :
        (P Q S : ActivationCondition hb → Type 0)
        → ((c : ActivationCondition hb) → P c → Q c → S c)
        → (cs : List (ActivationCondition hb)) → All P cs
        → All Q cs
        → All S cs
    All-zip P Q S f [] p q = tt
    All-zip P Q S f (c ∷ cs) (p, ps) (q, qs) = (f c p q, All-zip P Q S f cs ps qs)

    record Rounds (cs : List (ActivationCondition hb)) (g : EntryGraph hb box) (u : Unit {0})
        (h : EntryGraph hb box) : Type 0 where
      holds : AllHold h
      all_entered : All (Entered h) cs
      still : (d : ActivationCondition hb) → All (Differs hb box d) cs → Entered g d → Entered h d

    add_conditions-Yields :
        (i : ℕ) (cs : List (ActivationCondition hb)) (g : EntryGraph hb box)
        → All (Filled hb box segments) cs
        → Distinct hb box cs
        → All (Free g) cs
        → AllHold g
        → Yields hb box (add_conditions hb box segments i cs g) (Rounds cs g)
    unfolding add_conditions
    add_conditions-Yields i [] g filled distinct free hold = record {
      holds = hold;
      all_entered = tt;
      still = λ d a e. e;
    }
    add_conditions-Yields i (c ∷ cs) g (filled, all_filled) (apart, distinct) (free, all_free)
          hold =
        let n = normalize hb box c in
        Yields-bind hb box (add_mapping hb box 3 segments (i % 2 ^ 32) true c g) _
          (Mapped hb box r segments n g) (Rounds (c ∷ cs) g)
          (add_mapping-Yields hb box r segments 3 (i % 2 ^ 32) true c g (level-le n)
            (Filled-normalize hb box segments c filled)
            (λ c' id j le. hold.conds c' id j (level-le c')) hold.parts)
          (λ id g1 m.
            Yields-bind hb box (put_patches hb box c g1) _ (λ u h. Round c g h) (Rounds (c ∷ cs) g)
              (put_patches-Yields c g g1 id free hold m)
              (λ u g2 round.
                Yields-map hb box (add_conditions hb box segments (suc i) cs g2) (Rounds cs g2)
                  (Rounds (c ∷ cs) g)
                  (add_conditions-Yields (suc i) cs g2 all_filled distinct
                    (All-zip (Differs hb box c) (Free g) (Free g2)
                      (λ d a e. round.free d (Differs-sym hb box c d a) e) cs apart all_free)
                    round.holds)
                  (λ u h rest. record {
                    holds = rest.holds;
                    all_entered = (rest.still c apart round.entered, rest.all_entered);
                    still = λ d (a, as') e. rest.still d as' (round.still d a e);
                  })))

    -- The condition's node matches when the condition activates, and its patches are those of the
    -- condition.
    abbrev pub Implements : EntryGraph hb box → ActivationCondition hb → Type 0
    Implements g c =
        ((id : ℕ) × (found hb box c g.condition_to_node_id ≡ some id)
          × Means hb box r g.nodes id (activates hb (active hb box r segments) c))
        × (found hb box c g.patch_mappings ≡ some (c.activated ∷ c.prefetches))
        × (found hb box c g.patch_encodings ≡ some c.encoding)

    activates-normalize :
        (c : ActivationCondition hb)
        → activates hb (active hb box r segments) (normalize hb box c)
          ≡ activates hb (active hb box r segments) c
    unfolding normalize activates
    activates-normalize c =
        activates-composite_condition hb (active hb box r segments) c.conditions 0 false

    Entered-Implements :
        (g : EntryGraph hb box) (c : ActivationCondition hb)
        → AllHold g
        → Entered g c
        → Implements g c
    unfolding Listed find_condition
    Entered-Implements g c hold e =
        let n = normalize hb box c in
        let (c', id, i, same) = e.listed in
        let (w, f) = found-In hb box n c' id g.condition_to_node_id i same in
        let (c2, i2, same2) =
          find_key-In hb box (ActivationCondition hb) ℕ (condition_equal hb box) n
            g.condition_to_node_id w f in
        (
          (
            w,
            f,
            subst (Means hb box r g.nodes w)
                (sym (condition_equal-activates hb box (active hb box r segments) n c2 same2)
                  ∙ activates-normalize c)
                (hold.conds c2 w i2 (level-le c2)),
          ),
          e.patches,
          e.encoding,
        )

    new_graph-AllHold : AllHold (new_graph hb box)
    unfolding new_graph
    new_graph-AllHold = record { conds = λ c id i le. absurd i; parts = λ k v id i. absurd i }

    new_graph-Free : (cs : List (ActivationCondition hb)) → All (Free (new_graph hb box)) cs
    unfolding new_graph find_condition find_key
    new_graph-Free [] = tt
    new_graph-Free (c ∷ cs) = ((refl, refl), new_graph-Free cs)

    -- Create succeeds, unless there are 2^32 nodes, when the conditions differ in their normal forms,
    -- each has a group, each group a segment, and each segment is in the map and not empty. The graph
    -- then has a node for each condition, which matches a request exactly when the condition
    -- activates for the segments that the request meets, and the patches and the encoding of the
    -- condition.
    pub create_graph-Implements :
        (conditions : List (ActivationCondition hb))
        → All (Filled hb box segments) conditions
        → Distinct hb box conditions
        → Yields hb box
            (create_graph hb box segments conditions)
            (λ u g. All (Implements g) conditions)
    unfolding create_graph
    create_graph-Implements conditions filled distinct =
        Yields-map hb box (create_graph hb box segments conditions)
          (Rounds conditions (new_graph hb box)) (λ u g. All (Implements g) conditions)
          (add_conditions-Yields 0 conditions (new_graph hb box) filled distinct
            (new_graph-Free conditions) new_graph-AllHold)
          (λ u g rounds.
            All-zip (Entered g) (Entered g) (Implements g)
              (λ c e _. Entered-Implements g c rounds.holds e) conditions rounds.all_entered
              rounds.all_entered)
