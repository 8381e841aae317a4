-- ===== src/GlyphPartition/Reachable.antt =====
-- The states that the operations reach, and assignment.
use mathlib.Core.Path.{subst}
use ift_encoder.Prelude.{
  ℕ, zero, suc, ◌+◌, ◌<◌, ◌≡◌, refl, sym, ap, ◌∙◌, true, List, none, some, inl, inr, ◌↔◌, ◌==◌,
  length, length-replicate, arith, Bool-cases, lt→leb-false, if-false, if-true,
}
use ift_encoder.IntSet.Defs.{HbSet}
use ift_encoder.GlyphPartition.Defs.{
  StatusOr, ok, err, incompatible, GlyphPartition, Run, RunBoth, size, find_glyph, set_of,
  glyphs_for, ensure_cache, rebuild_cache, bind, assign, create, copy, union_pair, union_set,
  non_identity_groups_of, union_all, at, iota, union_partition,
}
use ift_encoder.GlyphPartition.Roots.{Root}
use ift_encoder.GlyphPartition.Union.{find_glyph-Finds}
use ift_encoder.GlyphPartition.WellFormed.{WellFormed, Keeps, find_glyph-Keeps}
use ift_encoder.GlyphPartition.Operations.{
  union_pair-Keeps, union_set-Keeps, glyphs_for-Keeps, non_identity_groups_of-Keeps,
  union_groups-Keeps,
}

length-iota : (n from : ℕ) → length (iota n from) ≡ n
unfolding iota
length-iota zero from = refl
length-iota (suc n) from = omega (arith, length-iota n (from + 1))

at-iota : (n from g : ℕ) → g < n → at (iota n from) g ≡ from + g
unfolding iota
at-iota zero from g low = absurd (omega arith)
at-iota (suc n) from zero low = omega arith
at-iota (suc n) from (suc g) low = omega (arith, at-iota n (from + 1) g (omega arith))

module _ (hb : HbSet) where
  open hb use {Set, has}

  pub create-WellFormed : (n : ℕ) → WellFormed hb (create hb n)
  unfolding create
  create-WellFormed n = record {
    ranked = record {
      same_size = length-replicate n 0 ∙ sym (length-iota n 0);
      in_bounds =
          λ g low. omega (arith, at-iota n 0 g (omega (arith, length-iota n 0)), length-iota n 0);
      rank_grows = λ g low moved.
          absurd (moved (at-iota n 0 g (omega (arith, length-iota n 0)) ∙ omega arith));
    };
    sound = λ valid. absurd (ground arith);
  }

  copy-WellFormed : (p : GlyphPartition hb) → WellFormed hb p → WellFormed hb (copy hb p)
  unfolding copy
  copy-WellFormed p w = record { ranked = w.ranked; sound = λ valid. absurd (ground arith) }

  -- Both partitions are well-formed behind the union.
  abbrev KeepsBoth : RunBoth hb → Type 0
  KeepsBoth m =
      (status : StatusOr (Unit {0})) × (q other : GlyphPartition hb) × (m ≡ some (status, q, other))
      × WellFormed hb q
      × WellFormed hb other

  merged_groups :
      (p other : GlyphPartition hb)
      → WellFormed hb p
      → Keeps hb (non_identity_groups_of hb other)
      → KeepsBoth (union_all hb p (non_identity_groups_of hb other))
  unfolding union_all
  merged_groups p other w (err x, other', goes, v) =
      (err x, p, other', rw (goes, union_all) refl, w, v)
  merged_groups p other w (ok groups, other', goes, v) =
      let (status, q, goes', u) = union_groups-Keeps hb p groups w in
      (status, q, other', rw (goes, goes', union_all) refl, u, v)

  union_partition-KeepsBoth :
      (p other : GlyphPartition hb)
      → WellFormed hb p
      → WellFormed hb other
      → KeepsBoth (union_partition hb p other)
  unfolding union_partition
  union_partition-KeepsBoth p other w v = elim (Bool-cases (size hb other == size hb p)) [
    | inr e ↦ (err incompatible, p, other, if-false _ _ e, w, v)
    | inl e ↦
        let (status, q, other', goes, u, v') =
          merged_groups p other w (non_identity_groups_of-Keeps hb other v) in
        (status, q, other', if-true _ _ e ∙ goes, u, v')
  ]

  -- A partition that the constructors and the operations other than operator= lead to, whatever the
  -- operations return.
  pub data Reachable : GlyphPartition hb → Type 0 where
    created : (num_glyphs : ℕ) → Reachable (create hb num_glyphs)
    copied : (p : GlyphPartition hb) → Reachable p → Reachable (copy hb p)
    found :
        (p q : GlyphPartition hb) (g : ℕ) (status : StatusOr ℕ)
        → Reachable p
        → find_glyph hb p g ≡ some (status, q)
        → Reachable q
    united_pair :
        (p q : GlyphPartition hb) (g k : ℕ) (status : StatusOr (Unit {0}))
        → Reachable p
        → union_pair hb p g k ≡ some (status, q)
        → Reachable q
    united_set :
        (p q : GlyphPartition hb) (glyphs : Set) (status : StatusOr (Unit {0}))
        → Reachable p
        → union_set hb p glyphs ≡ some (status, q)
        → Reachable q
    listed :
        (p q : GlyphPartition hb) (g : ℕ) (status : StatusOr Set)
        → Reachable p
        → glyphs_for hb p g ≡ some (status, q)
        → Reachable q
    grouped :
        (p q : GlyphPartition hb) (status : StatusOr (List Set))
        → Reachable p
        → non_identity_groups_of hb p ≡ some (status, q)
        → Reachable q
    united :
        (p other q other' : GlyphPartition hb) (status : StatusOr (Unit {0}))
        → Reachable p
        → Reachable other
        → union_partition hb p other ≡ some (status, q, other')
        → Reachable q
    lent :
        (p other q other' : GlyphPartition hb) (status : StatusOr (Unit {0}))
        → Reachable p
        → Reachable other
        → union_partition hb p other ≡ some (status, q, other')
        → Reachable other'

  Keeps-result :
      {A : Type 0} (m : Run hb A) (status : StatusOr A) (q : GlyphPartition hb)
      → m ≡ some (status, q)
      → Keeps hb m
      → WellFormed hb q
  Keeps-result m status q e (status', q', f, w) =
      subst (WellFormed hb) (ap (λ r. elim r [ none ↦ q | some (s, t) ↦ t ]) (sym f ∙ e)) w

  KeepsBoth-result :
      (m : RunBoth hb) (status : StatusOr (Unit {0})) (q other : GlyphPartition hb)
      → m ≡ some (status, q, other)
      → KeepsBoth m
      → WellFormed hb q × WellFormed hb other
  KeepsBoth-result m status q other e (status', q', other', f, w, v) = (
    subst (WellFormed hb) (ap (λ r. elim r [ none ↦ q | some (s, t, u) ↦ t ]) (sym f ∙ e)) w,
    subst (WellFormed hb) (ap (λ r. elim r [ none ↦ other | some (s, t, u) ↦ u ]) (sym f ∙ e)) v,
  )

  -- Every partition that the constructors, Find, the unions, GlyphsFor and NonIdentityGroups lead to,
  -- with any arguments and also when they return an error, has parents in bounds, ranks that grow on
  -- the way to the root, and, when its cache is marked as valid, the right cached sets.
  pub Reachable-WellFormed : {p : GlyphPartition hb} → Reachable p → WellFormed hb p
  Reachable-WellFormed (created n) = create-WellFormed n
  Reachable-WellFormed (copied p h) = copy-WellFormed _ (Reachable-WellFormed h)
  Reachable-WellFormed (found p q g status h e) =
      Keeps-result _ _ _ e (find_glyph-Keeps hb _ _ (Reachable-WellFormed h))
  Reachable-WellFormed (united_pair p q g k status h e) =
      Keeps-result _ _ _ e (union_pair-Keeps hb _ _ _ (Reachable-WellFormed h))
  Reachable-WellFormed (united_set p q glyphs status h e) =
      Keeps-result _ _ _ e (union_set-Keeps hb _ _ (Reachable-WellFormed h))
  Reachable-WellFormed (listed p q g status h e) =
      Keeps-result _ _ _ e (glyphs_for-Keeps hb _ _ (Reachable-WellFormed h))
  Reachable-WellFormed (grouped p q status h e) =
      Keeps-result _ _ _ e (non_identity_groups_of-Keeps hb _ (Reachable-WellFormed h))
  Reachable-WellFormed (united p other q other' status h k e) =
      (KeepsBoth-result _ _ _ _ e
        (union_partition-KeepsBoth _ _ (Reachable-WellFormed h) (Reachable-WellFormed k))).0
  Reachable-WellFormed (lent p other q other' status h k e) =
      (KeepsBoth-result _ _ _ _ e
        (union_partition-KeepsBoth _ _ (Reachable-WellFormed h) (Reachable-WellFormed k))).1

  -- operator= leaves the cache as it is. When the partition assigned to has a valid cache, GlyphsFor
  -- behind the assignment succeeds, looks up the root that the glyph has in the source, and returns
  -- the glyphs that had this root in the partition before the assignment.
  pub assign-stale :
      (p other : GlyphPartition hb) (g : ℕ)
      → WellFormed hb p
      → WellFormed hb other
      → p.cache_valid ≡ true
      → g < size hb other
      → (rep : ℕ) × (s : Set) × (q : GlyphPartition hb) × Root other.parent g rep
        × (glyphs_for hb (assign hb p other) g ≡ some (ok s, q))
        × ((x : ℕ) → (has s x ≡ true) ↔ ((x < size hb p) × Root p.parent x rep))
  unfolding assign glyphs_for ensure_cache bind
  assign-stale p other g w v valid low =
      let (rep, parent, goes, at_rep, kept) =
        find_glyph-Finds hb (assign hb p other) g v.ranked low in
      (
        rep,
        set_of hb p.rep_to_set rep,
        record p { rank = other.rank; parent = parent },
        at_rep,
        if-false _ _ (lt→leb-false (size hb other) g low)
            ∙ ap
                (λ m. bind hb {A = Unit {0}} m (λ done q.
                  bind hb (find_glyph hb q g) (λ r t. some (ok (set_of hb t.rep_to_set r), t))))
                (if-true (some (ok tt, assign hb p other)) (rebuild_cache hb (assign hb p other))
                  valid)
            ∙ ap (λ m. bind hb m (λ r t. some (ok (set_of hb t.rep_to_set r), t))) goes,
        w.sound valid rep,
      )
