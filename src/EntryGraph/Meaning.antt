-- ===== src/EntryGraph/Meaning.antt =====
-- Which nodes of a graph match a request, as the patch map's entries are defined: an entry matches if
-- the request meets each of its sets that is not empty, and if all its children match, or some child,
-- by its mode.
use ift_encoder.Prelude.{
  ℕ, ◌<◌, ◌≡◌, refl, sym, ap, ◌∙◌, Bool, true, false, not, ◌&&◌, List, length,
}
use mathlib.Core.Path.{subst}
use ift_encoder.IntSet.Defs.{HbSet}
use ift_encoder.EntryGraph.Coverage.{Containers, Request, meets_entry, all_empty}
use ift_encoder.EntryGraph.Nodes.{ChildMode, mode_none, mode_and, mode_or, EntryNode, node_at}

unfoldable pub is_branch : ChildMode → Bool
is_branch mode_none = false
is_branch mode_and = true
is_branch mode_or = true

-- The value of a child that settles whether its parent matches.
unfoldable pub deciding : ChildMode → Bool
deciding mode_or = true
deciding mode_none = false
deciding mode_and = false

contrary : (b : Bool) → b ≡ not b → ⊥
contrary true e = cc
contrary false e = cc

module _ (hb : HbSet) (box : Containers) where
  open hb use {Set, has}

  -- What of a node decides which requests it matches.
  pub record Same (a b : EntryNode hb box) : Type 0 where
    pub same_coverage : a.coverage ≡ b.coverage
    pub same_mode : a.child_mode ≡ b.child_mode
    pub same_children : a.children_ids ≡ b.children_ids

  pub Same-refl : (a : EntryNode hb box) → Same a a
  Same-refl a = record { same_coverage = refl; same_mode = refl; same_children = refl }

  pub Same-trans : (a b c : EntryNode hb box) → Same a b → Same b c → Same a c
  Same-trans a b c p q = record {
    same_coverage = p.same_coverage ∙ q.same_coverage;
    same_mode = p.same_mode ∙ q.same_mode;
    same_children = p.same_children ∙ q.same_children;
  }

  module _ (r : Request box) where
    -- `Means nodes id b`: the node `id` matches the request if `b` is true, and does not if it is
    -- false. A node that is still being built has no meaning.
    pub data Means (nodes : List (EntryNode hb box)) : ℕ → Bool → Type 0 where
      -- A node without children matches by its own sets, of which one is not empty.
      leaf :
          (id : ℕ) (b : Bool)
          → id < length nodes
          → (node_at hb box nodes id).child_mode ≡ mode_none
          → ((c : ℕ) → has (node_at hb box nodes id).children_ids c ≡ false)
          → all_empty box (node_at hb box nodes id).coverage ≡ false
          → b ≡ meets_entry box r (node_at hb box nodes id).coverage
          → Means nodes id b
      -- A child decides for its parent: one that matches, for OR, and one that does not, for AND.
      decided :
          (id c : ℕ) (b : Bool)
          → id < length nodes
          → is_branch (node_at hb box nodes id).child_mode ≡ true
          → has (node_at hb box nodes id).children_ids c ≡ true
          → Means nodes c (deciding (node_at hb box nodes id).child_mode)
          → b ≡ (
              meets_entry box r (node_at hb box nodes id).coverage
              && deciding (node_at hb box nodes id).child_mode)
          → Means nodes id b
      undecided :
          (id c : ℕ) (b : Bool)
          → id < length nodes
          → is_branch (node_at hb box nodes id).child_mode ≡ true
          → has (node_at hb box nodes id).children_ids c ≡ true
          → ((d : ℕ)
              → has (node_at hb box nodes id).children_ids d ≡ true
              → Means nodes d (not (deciding (node_at hb box nodes id).child_mode)))
          → b ≡ (
              meets_entry box r (node_at hb box nodes id).coverage
              && not (deciding (node_at hb box nodes id).child_mode))
          → Means nodes id b

    -- The meaning of a node is of the nodes that have one: these can be kept while others change.
    pub Means-kept :
        (old new : List (EntryNode hb box))
        → ((id : ℕ) (b : Bool)
            → Means old id b
            → (id < length new) × Same (node_at hb box old id) (node_at hb box new id))
        → (id : ℕ) (b : Bool) → Means old id b
        → Means new id b
    Means-kept old new kept _ _ (leaf id b l m h f e) =
        let (l', s) = kept id b (leaf id b l m h f e) in
        leaf id b l' (sym s.same_mode ∙ m) (λ c. ap (λ t. has t c) (sym s.same_children) ∙ h c)
          (ap (all_empty box) (sym s.same_coverage) ∙ f)
          (e ∙ ap (meets_entry box r) s.same_coverage)
    Means-kept old new kept _ _ (decided id c b l m h d e) =
        let (l', s) = kept id b (decided id c b l m h d e) in
        decided id c b l' (ap is_branch (sym s.same_mode) ∙ m)
          (ap (λ t. has t c) (sym s.same_children) ∙ h)
          (subst (λ x. Means new c (deciding x)) s.same_mode (Means-kept old new kept c _ d))
          (e
            ∙ ap (λ x. meets_entry box r x && deciding (node_at hb box old id).child_mode)
                s.same_coverage
            ∙ ap (λ x. meets_entry box r (node_at hb box new id).coverage && deciding x)
                s.same_mode)
    Means-kept old new kept _ _ (undecided id c b l m h u e) =
        let (l', s) = kept id b (undecided id c b l m h u e) in
        undecided id c b l' (ap is_branch (sym s.same_mode) ∙ m)
          (ap (λ t. has t c) (sym s.same_children) ∙ h)
          (λ d k.
            subst (λ x. Means new d (not (deciding x))) s.same_mode
              (Means-kept old new kept d _ (u d (ap (λ t. has t d) s.same_children ∙ k))))
          (e
            ∙ ap (λ x. meets_entry box r x && not (deciding (node_at hb box old id).child_mode))
                s.same_coverage
            ∙ ap (λ x. meets_entry box r (node_at hb box new id).coverage && not (deciding x))
                s.same_mode)

    -- No node has two meanings.
    pub Means-unique :
        (nodes : List (EntryNode hb box)) (id : ℕ) (a b : Bool)
        → Means nodes id a
        → Means nodes id b
        → a ≡ b
    Means-unique nodes _ _ _ (leaf id a l m h f e) (leaf _ b l' m' h' f' e') = e ∙ sym e'
    Means-unique nodes _ _ _ (leaf id a l m h f e) (decided _ c b l' m' h' d' e') = cc (h c)
    Means-unique nodes _ _ _ (leaf id a l m h f e) (undecided _ c b l' m' h' u' e') = cc (h c)
    Means-unique nodes _ _ _ (decided id c a l m h d e) (leaf _ b l' m' h' f' e') = cc (h' c)
    Means-unique nodes _ _ _ (decided id c a l m h d e) (decided _ c' b l' m' h' d' e') = e ∙ sym e'
    Means-unique nodes _ _ _ (decided id c a l m h d e) (undecided _ c' b l' m' h' u' e') =
        absurd (contrary _ (Means-unique nodes c _ _ d (u' c h)))
    Means-unique nodes _ _ _ (undecided id c a l m h u e) (leaf _ b l' m' h' f' e') = cc (h' c)
    Means-unique nodes _ _ _ (undecided id c a l m h u e) (decided _ c' b l' m' h' d' e') =
        absurd (contrary _ (sym (Means-unique nodes c' _ _ (u c' h') d')))
    Means-unique nodes _ _ _ (undecided id c a l m h u e) (undecided _ c' b l' m' h' u' e') =
        e ∙ sym e'
