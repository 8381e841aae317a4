-- ===== src/FontDiff/Differs.antt =====
-- brotli/table_differ.h and its three implementations: how much of a table belongs to a glyph, and
-- whether it is in the base font.
use ift_encoder.Prelude.{
  ℕ, ◌+◌, ◌-◌, ◌*◌, ◌%◌, ◌^◌, Bool, true, false, ◌&&◌, ◌||◌, List, ◌==◌, ltb, leb, if◌then◌else◌,
  length, get_or, not,
}

pub data Mode : Type 0 where
  init new_data existing_data : Mode

pub record HmtxDiffer : Type 0 where
  pub mode : Mode
  pub base_number_of_metrics : ℕ
  pub derived_number_of_metrics : ℕ

pub record LocaDiffer : Type 0 where
  pub mode : Mode
  pub mismatched_loca_format : Bool
  pub loca_width : ℕ

pub record GlyfDiffer : Type 0 where
  pub mode : Mode
  pub loca : List ℕ
  pub is_base_short_loca : Bool
  pub is_derived_short_loca : Bool

-- The implementations of the class TableDiffer.
pub data TableDiffer : Type 0 where
  hmtx_differ : HmtxDiffer → TableDiffer
  loca_differ : LocaDiffer → TableDiffer
  glyf_differ : GlyfDiffer → TableDiffer

-- A big-endian number of two bytes.
abbrev pub u16_at : List ℕ → ℕ → ℕ
u16_at bytes index = get_or bytes index 0 * 2 ^ 8 + get_or bytes (index + 1) 0

-- A big-endian number of four bytes.
abbrev pub u32_at : List ℕ → ℕ → ℕ
u32_at bytes index = u16_at bytes index * 2 ^ 16 + u16_at bytes (index + 2)

unfoldable pub get_number_of_metrics : List ℕ → ℕ
get_number_of_metrics hhea = if ltb (length hhea) 36 then 0 else u16_at hhea 34

unfoldable pub create_hmtx : List ℕ → List ℕ → HmtxDiffer
unfolding get_number_of_metrics
create_hmtx base_hhea derived_hhea = record {
  mode = init;
  base_number_of_metrics = get_number_of_metrics base_hhea;
  derived_number_of_metrics = get_number_of_metrics derived_hhea;
}

abbrev pub same_bool : Bool → Bool → Bool
same_bool true b = b
same_bool false b = not b

unfoldable pub create_loca : Bool → Bool → LocaDiffer
create_loca is_base_short_loca is_derived_short_loca = record {
  mode = init;
  mismatched_loca_format = not (same_bool is_base_short_loca is_derived_short_loca);
  loca_width = if is_derived_short_loca then 2 else 4;
}

unfoldable pub create_glyf : List ℕ → Bool → Bool → GlyfDiffer
create_glyf loca is_base_short_loca is_derived_short_loca = record {
  mode = init;
  loca = loca;
  is_base_short_loca = is_base_short_loca;
  is_derived_short_loca = is_derived_short_loca;
}

abbrev pub is_new : Mode → Bool
is_new new_data = true
is_new _ = false

-- The difference of two unsigned numbers.
abbrev pub sub32 : ℕ → ℕ → ℕ
sub32 a b = (a + 2 ^ 32 - b) % 2 ^ 32

-- GlyfDiffer::GlyphLength
unfoldable pub glyph_length : GlyfDiffer → ℕ → ℕ
glyph_length d gid =
    if d.is_derived_short_loca
    then (if leb (length d.loca) (gid * 2 + 3)
        then 0
        else sub32 (u16_at d.loca (gid * 2 + 2) * 2) (u16_at d.loca (gid * 2) * 2))
    else (if leb (length d.loca) (gid * 4 + 7)
        then 0
        else sub32 (u32_at d.loca (gid * 4 + 4)) (u32_at d.loca (gid * 4)))

-- The glyph of the derived font and of the base font that is looked at, the glyph of the derived
-- font that the latter is, and whether it is empty.
pub record Glyph : Type 0 where
  pub derived_gid : ℕ
  pub base_gid : ℕ
  pub base_derived_gid : ℕ
  pub is_base_empty : Bool

-- A differ with the lengths in the base and in the derived table.
abbrev pub Processed : Type 0 → Type 0
Processed A = A × ℕ × ℕ

-- The bytes that a glyph has in a table of metrics.
abbrev pub metric_size : ℕ → ℕ → ℕ
metric_size gid number_of_metrics = if ltb gid number_of_metrics then 4 else 2

-- Both glyphs are on the same side of the number of metrics.
unfoldable pub same_side : HmtxDiffer → Glyph → Bool
same_side d g =
    (ltb g.derived_gid d.derived_number_of_metrics && ltb g.base_gid d.base_number_of_metrics)
    || (leb d.derived_number_of_metrics g.derived_gid && leb d.base_number_of_metrics g.base_gid)

unfoldable pub process_hmtx : HmtxDiffer → Glyph → Processed HmtxDiffer
unfolding same_side
process_hmtx d g =
    let derived = metric_size g.derived_gid d.derived_number_of_metrics in
    let base = metric_size g.base_gid d.base_number_of_metrics in
    if g.derived_gid == g.base_derived_gid && same_side d g
    then (record d { mode = existing_data }, base, derived)
    else (record d { mode = new_data }, (if g.is_base_empty then base else 0), derived)

-- The mode that the switch of LocaDiffer::Process starts from.
unfoldable pub loca_mode : LocaDiffer → Mode
loca_mode d = if d.mismatched_loca_format then new_data else d.mode

unfoldable pub process_loca : LocaDiffer → Glyph → Processed LocaDiffer
unfolding loca_mode
process_loca d g =
    if is_new (loca_mode d)
    then (record d { mode = new_data }, 0, d.loca_width)
    else if g.base_derived_gid == g.derived_gid
    then (record d { mode = existing_data }, d.loca_width, d.loca_width)
    else (record d { mode = new_data }, 0, d.loca_width)

unfoldable pub process_glyf : GlyfDiffer → Glyph → Processed GlyfDiffer
unfolding glyph_length
process_glyf d g =
    let size = glyph_length d g.derived_gid in
    if not (same_bool d.is_base_short_loca d.is_derived_short_loca)
    then (record d { mode = new_data }, 0, size)
    else if g.base_derived_gid == g.derived_gid
    then (record d { mode = existing_data }, size, size)
    else (record d { mode = new_data }, 0, size)

abbrev wrap : {A : Type 0} → (A → TableDiffer) → Processed A → Processed TableDiffer
wrap f (d, base, derived) = (f d, base, derived)

unfoldable pub process : TableDiffer → Glyph → Processed TableDiffer
unfolding process_hmtx process_loca process_glyf
process (hmtx_differ d) g = wrap hmtx_differ (process_hmtx d g)
process (loca_differ d) g = wrap loca_differ (process_loca d g)
process (glyf_differ d) g = wrap glyf_differ (process_glyf d g)

unfoldable pub finalize : TableDiffer → ℕ × ℕ
finalize (hmtx_differ d) = (0, 0)
finalize (loca_differ d) = (d.loca_width, d.loca_width)
finalize (glyf_differ d) = (0, 0)

unfoldable pub is_new_data : TableDiffer → Bool
is_new_data (hmtx_differ d) = is_new d.mode
is_new_data (loca_differ d) = is_new d.mode
is_new_data (glyf_differ d) = is_new d.mode
