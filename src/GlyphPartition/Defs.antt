-- ===== src/GlyphPartition/Defs.antt =====
-- The class GlyphPartition. Find recurs on fuel, which stands for the length of a path; `none` means
-- that the fuel ran out. A rank is at most the number of unions and does not wrap.
use ift_encoder.Prelude.{
  ℕ, zero, suc, ◌+◌, Bool, true, false, List, [], ◌∷◌, Option, none, some, ◌==◌, ltb, leb,
  if◌then◌else◌, length, get_or, set, replicate,
}
use ift_encoder.IntSet.Defs.{HbSet}
use ift_encoder.Condition.Defs.{sort_by, set_less}

pub data Error : Type 0 where
  out_of_bounds : ℕ → Error
  incompatible : Error

pub data StatusOr {ℓ} (A : Type ℓ) : Type ℓ where
  ok : A → StatusOr A
  err : Error → StatusOr A

abbrev pub at : List ℕ → ℕ → ℕ
at xs i = get_or xs i 0

-- std::iota
unfoldable pub iota : ℕ → ℕ → List ℕ
iota zero from = []
iota (suc n) from = from ∷ iota n (from + 1)

-- Find on the vector of parents: the root, or the error, and the parents with the path compressed.
unfoldable pub find : ℕ → List ℕ → ℕ → Option (StatusOr ℕ × List ℕ)
find zero parent glyph = none
find (suc fuel) parent glyph =
    let above = find fuel parent (at parent glyph) in
    if leb (length parent) glyph
    then some (err (out_of_bounds glyph), parent)
    else if at parent glyph == glyph
    then some (ok glyph, parent)
    else elim above [
      | none ↦ none
      | some (err e, parent') ↦ some (err e, parent')
      | some (ok root, parent') ↦ some (ok root, set parent' glyph root)
    ]

module _ (hb : HbSet) where
  open hb use {Set, empty, add, values, population}

  pub record GlyphPartition : Type 0 where
    pub rank : List ℕ
    pub parent : List ℕ
    pub cache_valid : Bool
    pub rep_to_set : List (ℕ × Set)
    pub non_identity_groups : List Set

  unfoldable pub create : ℕ → GlyphPartition
  unfolding iota
  create num_glyphs = record {
    rank = replicate num_glyphs 0;
    parent = iota num_glyphs 0;
    cache_valid = false;
    rep_to_set = [];
    non_identity_groups = [];
  }

  -- The copy constructor.
  unfoldable pub copy : GlyphPartition → GlyphPartition
  copy other = record {
    rank = other.rank;
    parent = other.parent;
    cache_valid = false;
    rep_to_set = [];
    non_identity_groups = [];
  }

  -- operator=, of two objects that are not the same.
  unfoldable pub assign : GlyphPartition → GlyphPartition → GlyphPartition
  assign p other = record p { rank = other.rank; parent = other.parent }

  abbrev pub Run : Type 0 → Type 0
  Run A = Option (StatusOr A × GlyphPartition)

  -- TRY: an error ends the operation, with the state it has reached.
  unfoldable pub bind : {A B : Type 0} → Run A → (A → GlyphPartition → Run B) → Run B
  bind none next = none
  bind (some (err e, q)) next = some (err e, q)
  bind (some (ok a, q)) next = next a q

  abbrev pub size : GlyphPartition → ℕ
  size p = length p.parent

  unfoldable pub find_glyph : GlyphPartition → ℕ → Run ℕ
  unfolding find
  find_glyph p glyph = elim (find (size p + 1) p.parent glyph) [
    | none ↦ none
    | some (status, parent) ↦ some (status, record p { parent = parent })
  ]

  -- The three ways to link two roots.
  unfoldable pub link : GlyphPartition → ℕ → ℕ → GlyphPartition
  link p root1 root2 =
      if ltb (at p.rank root1) (at p.rank root2)
      then record p { parent = set p.parent root1 root2; cache_valid = false }
      else if ltb (at p.rank root2) (at p.rank root1)
      then record p { parent = set p.parent root2 root1; cache_valid = false }
      else record p {
        parent = set p.parent root2 root1;
        rank = set p.rank root1 (at p.rank root1 + 1);
        cache_valid = false;
      }

  -- Union of two glyphs, behind the calls of Find.
  unfoldable pub union_roots : GlyphPartition → ℕ → ℕ → GlyphPartition
  unfolding link
  union_roots p root1 root2 = if root1 == root2 then p else link p root1 root2

  -- Union of two glyphs, behind the test of their bounds.
  unfoldable pub union_found : GlyphPartition → ℕ → ℕ → Run (Unit {0})
  unfolding bind find_glyph union_roots
  union_found p glyph1 glyph2 =
      bind (find_glyph p glyph1)
        (λ root1 q. bind (find_glyph q glyph2) (λ root2 r. some (ok tt, union_roots r root1 root2)))

  unfoldable pub union_pair : GlyphPartition → ℕ → ℕ → Run (Unit {0})
  unfolding union_found
  union_pair p glyph1 glyph2 =
      if leb (size p) glyph1
      then some (err (out_of_bounds glyph1), p)
      else if leb (size p) glyph2
      then some (err (out_of_bounds glyph2), p)
      else union_found p glyph1 glyph2

  -- The loop over the glyphs behind the first.
  unfoldable pub union_rest : GlyphPartition → ℕ → List ℕ → Run (Unit {0})
  unfolding bind union_pair
  union_rest p first_gid [] = some (ok tt, p)
  union_rest p first_gid (second_gid ∷ gids) =
      if leb (size p) second_gid
      then some (err (out_of_bounds second_gid), p)
      else bind (union_pair p first_gid second_gid) (λ done q. union_rest q first_gid gids)

  unfoldable pub union_values : GlyphPartition → List ℕ → Run (Unit {0})
  unfolding union_rest
  union_values p [] = some (ok tt, p)
  union_values p (first_gid ∷ gids) =
      if leb (size p) first_gid
      then some (err (out_of_bounds first_gid), p)
      else union_rest p first_gid gids

  unfoldable pub union_set : GlyphPartition → Set → Run (Unit {0})
  unfolding union_values
  union_set p glyphs = union_values p (values glyphs)

  -- `rep_to_set_[rep]`, which is empty for a key that is missing.
  unfoldable pub set_of : List (ℕ × Set) → ℕ → Set
  set_of [] rep = empty
  set_of ((r, s) ∷ sets) rep = if r == rep then s else set_of sets rep

  -- `rep_to_set_[rep].insert(glyph)`
  unfoldable pub insert_at : List (ℕ × Set) → ℕ → ℕ → List (ℕ × Set)
  insert_at [] rep glyph = (rep, add empty glyph) ∷ []
  insert_at ((r, s) ∷ sets) rep glyph =
      let rest = insert_at sets rep glyph in
      if r == rep then (r, add s glyph) ∷ sets else (r, s) ∷ rest

  -- The first loop of RebuildCache, for the glyphs from `glyph` on.
  unfoldable pub fill_cache : ℕ → ℕ → GlyphPartition → Run (Unit {0})
  unfolding bind find_glyph insert_at
  fill_cache zero glyph p = some (ok tt, p)
  fill_cache (suc left) glyph p = bind (find_glyph p glyph) (λ rep q.
      fill_cache left (glyph + 1) (record q { rep_to_set = insert_at q.rep_to_set rep glyph }))

  -- The groups with more than one glyph.
  unfoldable pub several : List (ℕ × Set) → List Set
  several [] = []
  several ((_, gids) ∷ sets) = if ltb 1 (population gids) then gids ∷ several sets else several sets

  unfoldable pub rebuild_cache : GlyphPartition → Run (Unit {0})
  unfolding bind fill_cache several sort_by set_less
  rebuild_cache p = bind (fill_cache (size p) 0 (record p { rep_to_set = [] })) (λ done q. some (
    ok tt,
    record q {
      non_identity_groups = sort_by hb (set_less hb) (several q.rep_to_set);
      cache_valid = true;
    },
  ))

  unfoldable pub ensure_cache : GlyphPartition → Run (Unit {0})
  unfolding rebuild_cache
  ensure_cache p =
      let rebuilt = rebuild_cache p in if p.cache_valid then some (ok tt, p) else rebuilt

  unfoldable pub glyphs_for : GlyphPartition → ℕ → Run Set
  unfolding bind ensure_cache find_glyph set_of
  glyphs_for p glyph =
      let cached : Run Set =
        bind (ensure_cache p)
          (λ done q. bind (find_glyph q glyph) (λ rep r. some (ok (set_of r.rep_to_set rep), r))) in
      if leb (size p) glyph then some (err (out_of_bounds glyph), p) else cached

  unfoldable pub non_identity_groups_of : GlyphPartition → Run (List Set)
  unfolding bind ensure_cache
  non_identity_groups_of p = bind (ensure_cache p) (λ done q. some (ok q.non_identity_groups, q))

  unfoldable pub union_groups : GlyphPartition → List Set → Run (Unit {0})
  unfolding bind union_set
  union_groups p [] = some (ok tt, p)
  union_groups p (group ∷ groups) = bind (union_set p group) (λ done q. union_groups q groups)

  -- Union with another partition, which comes back with its paths compressed and its cache built.
  abbrev pub RunBoth : Type 0
  RunBoth = Option (StatusOr (Unit {0}) × GlyphPartition × GlyphPartition)

  -- The loop over the groups, behind the call that gives them.
  unfoldable pub union_all : GlyphPartition → Run (List Set) → RunBoth
  unfolding union_groups
  union_all p none = none
  union_all p (some (err e, other)) = some (err e, p, other)
  union_all p (some (ok groups, other)) = elim (union_groups p groups) [
    | none ↦ none
    | some (status, q) ↦ some (status, q, other)
  ]

  unfoldable pub union_partition : GlyphPartition → GlyphPartition → RunBoth
  unfolding non_identity_groups_of union_all
  union_partition p other =
      let merged = union_all p (non_identity_groups_of other) in
      if size other == size p then merged else some (err incompatible, p, other)
