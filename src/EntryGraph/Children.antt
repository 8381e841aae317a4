-- ===== src/EntryGraph/Children.antt =====
-- The meaning of a node whose children are the members of a list.
use ift_encoder.Prelude.{
  ℕ, ◌<◌, ◌≡◌, ◌⊎◌, refl, sym, ap, ◌∙◌, Bool, true, false, not, ◌&&◌, ◌||◌, List, [], ◌∷◌, ◌++◌,
  length, if◌then◌else◌, arith, Bool-cases, inl, inr, ◌==◌, ==_iff,
}
use mathlib.Core.Path.{subst}
use ift_encoder.IntSet.Defs.{HbSet, mem}
use ift_encoder.EntryGraph.Coverage.{Containers, Request, meets_entry}
use ift_encoder.EntryGraph.Nodes.{ChildMode, mode_none, mode_and, mode_or, EntryNode, node_at}
use ift_encoder.EntryGraph.Meaning.{is_branch, deciding, Means, decided, undecided}

-- All of the values, or some, by the mode.
unfoldable pub join : ChildMode → List Bool → Bool
unfolding deciding
join m [] = not (deciding m)
join m (b ∷ bs) = if deciding m then b || join m bs else b && join m bs

pub join-front :
    (m : ChildMode) (as' bs : List Bool) → join m (join m bs ∷ as') ≡ join m (as' ++ bs)
unfolding join deciding
join-front mode_or [] bs = ground arith
join-front mode_and [] bs = ground arith
join-front mode_none [] bs = ground arith
join-front mode_or (a ∷ as') bs = ground (arith, join-front mode_or as' bs)
join-front mode_and (a ∷ as') bs = ground (arith, join-front mode_and as' bs)
join-front mode_none (a ∷ as') bs = ground (arith, join-front mode_none as' bs)

join-settled : (m : ChildMode) (bs : List Bool) → join m (deciding m ∷ bs) ≡ deciding m
unfolding join deciding
join-settled mode_or bs = refl
join-settled mode_and bs = refl
join-settled mode_none bs = refl

join-passed :
    (m : ChildMode) (b : Bool) (bs : List Bool)
    → join m bs ≡ deciding m
    → join m (b ∷ bs) ≡ deciding m
unfolding join deciding
join-passed mode_or b bs e = ground (arith, e)
join-passed mode_and b bs e = ground (arith, e)
join-passed mode_none b bs e = ground (arith, e)

join-unsettled :
    (m : ChildMode) (bs : List Bool)
    → join m bs ≡ not (deciding m)
    → join m (not (deciding m) ∷ bs) ≡ not (deciding m)
unfolding join deciding
join-unsettled mode_or bs e = e
join-unsettled mode_and bs e = e
join-unsettled mode_none bs e = e

settles : (m : ChildMode) (b : Bool) → (b ≡ deciding m) ⊎ (b ≡ not (deciding m))
unfolding deciding
settles mode_or b = Bool-cases b
settles mode_and true = inr refl
settles mode_and false = inl refl
settles mode_none true = inr refl
settles mode_none false = inl refl

module _ (hb : HbSet) (box : Containers) (r : Request box) where
  open hb use {has}

  -- The nodes of a list mean the values of the other.
  abbrev pub MeanAll : List (EntryNode hb box) → List ℕ → List Bool → Type 0
  MeanAll nodes [] [] = Unit
  MeanAll nodes (id ∷ ids) (b ∷ bs) = Means hb box r nodes id b × MeanAll nodes ids bs
  MeanAll nodes _ _ = ⊥

  pub MeanAll-kept :
      (old new : List (EntryNode hb box)) (ids : List ℕ) (bs : List Bool)
      → ((id : ℕ) (b : Bool) → Means hb box r old id b → Means hb box r new id b)
      → MeanAll old ids bs
      → MeanAll new ids bs
  MeanAll-kept old new [] [] kept h = tt
  MeanAll-kept old new [] (b ∷ bs) kept h = h
  MeanAll-kept old new (id ∷ ids) [] kept h = h
  MeanAll-kept old new (id ∷ ids) (b ∷ bs) kept h =
      (kept id b h.0, MeanAll-kept old new ids bs kept h.1)

  pub MeanAll-length :
      (nodes : List (EntryNode hb box)) (ids : List ℕ) (bs : List Bool)
      → MeanAll nodes ids bs
      → length ids ≡ length bs
  MeanAll-length nodes [] [] h = refl
  MeanAll-length nodes [] (b ∷ bs) h = absurd h
  MeanAll-length nodes (id ∷ ids) [] h = absurd h
  MeanAll-length nodes (id ∷ ids) (b ∷ bs) h = omega (arith, MeanAll-length nodes ids bs h.1)

  -- Either a node of the list settles the value, or none does.
  Settled : ChildMode → List (EntryNode hb box) → List ℕ → List Bool → Type 0
  Settled m nodes ids bs =
      (c : ℕ) × (mem c ids ≡ true) × Means hb box r nodes c (deciding m) × (join m bs ≡ deciding m)

  Unsettled : ChildMode → List (EntryNode hb box) → List ℕ → List Bool → Type 0
  Unsettled m nodes ids bs =
      ((c : ℕ) → mem c ids ≡ true → Means hb box r nodes c (not (deciding m)))
      × (join m bs ≡ not (deciding m))

  settle :
      (m : ChildMode) (nodes : List (EntryNode hb box)) (ids : List ℕ) (bs : List Bool)
      → MeanAll nodes ids bs
      → Settled m nodes ids bs ⊎ Unsettled m nodes ids bs
  unfolding Settled Unsettled join
  settle m nodes [] [] h = inr ((λ c e. cc), refl)
  settle m nodes [] (b ∷ bs) h = absurd h
  settle m nodes (id ∷ ids) [] h = absurd h
  settle m nodes (id ∷ ids) (b ∷ bs) h = elim (settle m nodes ids bs h.1) [
    | inl (c, k, d, e) ↦ inl (c, ground arith, d, join-passed m b bs e)
    | inr (u, e) ↦ elim (settles m b) [
      | inl s ↦ inl (
        id,
        ground arith,
        subst (λ x. Means hb box r nodes id x) s h.0,
        ap (λ x. join m (x ∷ bs)) s ∙ join-settled m bs,
      )
      | inr s ↦ inr (
        (λ c k. elim (Bool-cases (c == id)) [
          | inl q ↦
              subst (λ x. Means hb box r nodes x (not (deciding m))) (sym ((==_iff c id).0 q))
                (subst (λ x. Means hb box r nodes id x) s h.0)
          | inr q ↦ u c (rw q at k)
        ]),
        ap (λ x. join m (x ∷ bs)) s ∙ join-unsettled m bs e,
      )
    ]
  ]

  -- A node without sets of its own, with the children `c` and `ids`.
  pub Means-join :
      (nodes : List (EntryNode hb box)) (id : ℕ) (m : ChildMode)
      → (c : ℕ) (ids : List ℕ) (bs : List Bool) → id < length nodes
      → (node_at hb box nodes id).child_mode ≡ m
      → is_branch m ≡ true
      → meets_entry box r (node_at hb box nodes id).coverage ≡ true
      → ((x : ℕ) → has (node_at hb box nodes id).children_ids x ≡ mem x (c ∷ ids))
      → MeanAll nodes (c ∷ ids) bs
      → Means hb box r nodes id (join m bs)
  unfolding Settled Unsettled
  Means-join nodes id m c ids bs l mode branch own children h =
      let at = node_at hb box nodes id in
      let first : has at.children_ids c ≡ true = children c ∙ ground arith in
      elim (settle m nodes (c ∷ ids) bs h) [
        | inl (d, k, means, e) ↦
            decided id d (join m bs) l (ap is_branch mode ∙ branch) (children d ∙ k)
              (subst (λ x. Means hb box r nodes d (deciding x)) (sym mode) means)
              (e ∙ ap deciding (sym mode) ∙ ap (λ x. x && deciding at.child_mode) (sym own))
        | inr (u, e) ↦
            undecided id c (join m bs) l (ap is_branch mode ∙ branch) first
              (λ d k.
                subst (λ x. Means hb box r nodes d (not (deciding x))) (sym mode)
                  (u d (sym (children d) ∙ k)))
              (e
                ∙ ap (λ x. not (deciding x)) (sym mode)
                ∙ ap (λ x. x && not (deciding at.child_mode)) (sym own))
      ]
