-- ===== src/FontDiff/Driver.antt =====
-- brotli_font_diff.cc, class DiffDriver: the loop over the glyphs, which drives a differ and a range
-- for each table. The two glyph maps are hb_map_t of the subset plans.
use ift_encoder.Prelude.{
  ℕ, zero, suc, ◌+◌, ◌-◌, ◌^◌, Bool, true, false, not, ◌&&◌, ◌||◌, List, [], ◌∷◌, ◌==◌, ltb,
  if◌then◌else◌,
}
use ift_encoder.FontDiff.Streams.{Streams, four_byte_align}
use ift_encoder.FontDiff.Range.{
  StatusOr, ok, err, TableRange, add32, extend, commit_new, commit_existing,
}
use ift_encoder.FontDiff.Differs.{TableDiffer, Glyph, process, finalize, is_new_data, same_bool}

-- HB_MAP_VALUE_INVALID, which hb_map_get returns for a key that is missing.
abbrev pub map_value_invalid : ℕ
map_value_invalid = 2 ^ 32 - 1

pub record GlyphMap : Type 0 where
  pub get : ℕ → ℕ
  pub has : ℕ → Bool

-- The fields that the loop reads only.
pub record Plan : Type 0 where
  pub base_new_to_old : GlyphMap
  pub derived_old_to_new : GlyphMap
  pub base_glyph_count : ℕ
  pub derived_glyph_count : ℕ
  pub retain_gids : Bool

-- The glyph of the derived font, and whether the base glyph is empty.
unfoldable pub base_to_derived_gid : Plan → ℕ → ℕ × Bool
base_to_derived_gid plan gid =
    if plan.retain_gids
    then (if ltb gid plan.base_glyph_count
        then (gid, not (plan.base_new_to_old.has gid))
        else (map_value_invalid, false))
    else (plan.derived_old_to_new.get (plan.base_new_to_old.get gid), false)

-- The start of a round of the loop.
unfoldable pub glyph_at : Plan → ℕ → ℕ → Glyph
unfolding base_to_derived_gid
glyph_at plan base_gid derived_gid =
    let (found, is_base_empty) = base_to_derived_gid plan base_gid in
    record {
      derived_gid = derived_gid;
      base_gid = base_gid;
      base_derived_gid =
          if is_base_empty && derived_gid == found && plan.derived_old_to_new.has derived_gid
          then map_value_invalid
          else found;
      is_base_empty = is_base_empty;
    }

-- The end of a round: base_gid of the next one.
unfoldable pub next_base_gid : Glyph → ℕ
next_base_gid g =
    if g.base_derived_gid == g.derived_gid || g.base_gid == g.derived_gid && g.is_base_empty
    then add32 g.base_gid 1
    else g.base_gid

module _ (streams : Streams) where
  open streams use {Stream, append}

  pub record RangeAndDiffer : Type 0 where
    pub range : TableRange streams
    pub differ : TableDiffer

  unfoldable pub commit : Bool → TableRange streams → StatusOr (TableRange streams)
  unfolding commit_new commit_existing
  commit true range = commit_new streams range
  commit false range = commit_existing streams range

  -- The call of Extend behind a commit.
  unfoldable pub extended :
      TableDiffer → ℕ → ℕ → StatusOr (TableRange streams) → StatusOr RangeAndDiffer
  unfolding extend
  extended differ base derived (err e) = err e
  extended differ base derived (ok range) =
      ok (record { range = extend streams range base derived; differ = differ })

  -- The body of the inner loop.
  unfoldable pub process_range : Glyph → RangeAndDiffer → StatusOr RangeAndDiffer
  unfolding process is_new_data commit extended
  process_range g r =
      let (differ, base, derived) = process r.differ g in
      let was_new_data = is_new_data r.differ in
      let changed = not (same_bool was_new_data (is_new_data differ)) in
      extended differ base derived
        (if ltb 0 g.derived_gid && changed then commit was_new_data r.range else ok r.range)

  unfoldable pub cons_ok :
      RangeAndDiffer → StatusOr (List RangeAndDiffer) → StatusOr (List RangeAndDiffer)
  cons_ok r (ok rs) = ok (r ∷ rs)
  cons_ok r (err e) = err e

  unfoldable pub process_ranges : Glyph → List RangeAndDiffer → StatusOr (List RangeAndDiffer)
  unfolding process_range cons_ok
  process_ranges g [] = ok []
  process_ranges g (r ∷ rs) =
      let rest = process_ranges g rs in
      elim (process_range g r) [ err e ↦ err e | ok r' ↦ cons_ok r' rest ]

  -- The loop over the glyphs, of which `left` are left.
  unfoldable pub process_glyphs :
      Plan → ℕ → ℕ → ℕ → List RangeAndDiffer → StatusOr (List RangeAndDiffer)
  unfolding process_ranges glyph_at next_base_gid
  process_glyphs plan zero base_gid derived_gid rs = ok rs
  process_glyphs plan (suc left) base_gid derived_gid rs =
      let g = glyph_at plan base_gid derived_gid in
      elim (process_ranges g rs) [
        | err e ↦ err e
        | ok rs' ↦ process_glyphs plan left (next_base_gid g) (derived_gid + 1) rs'
      ]

  -- The body of the last loop, up to the padding.
  unfoldable pub finalize_range : RangeAndDiffer → StatusOr (TableRange streams)
  unfolding finalize extend is_new_data commit
  finalize_range r =
      let (base, derived) = finalize r.differ in
      commit (is_new_data r.differ) (extend streams r.range base derived)

  unfoldable pub finalize_ranges : List RangeAndDiffer → Stream → StatusOr Stream
  unfolding finalize_range four_byte_align
  finalize_ranges [] out = ok out
  finalize_ranges (r ∷ rs) out = elim (finalize_range r) [
    | err e ↦ err e
    | ok range ↦ finalize_ranges rs (append out (four_byte_align streams range.out))
  ]

  unfoldable pub make_diff : Plan → List RangeAndDiffer → Stream → StatusOr Stream
  unfolding process_glyphs finalize_ranges
  make_diff plan rs out = elim (process_glyphs plan plan.derived_glyph_count 0 0 rs) [
    | err e ↦ err e
    | ok rs' ↦ finalize_ranges rs' out
  ]
