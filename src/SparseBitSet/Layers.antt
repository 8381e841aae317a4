-- ===== src/SparseBitSet/Layers.antt =====
-- EncodeLayer: the state machine that writes the nodes of one layer. `none` stands for the exception of
-- `filled_levels.at` on a missing key, and for a read of `node_bases` past its end, which is undefined. The references of EncodeContext to outputs are fields here.
use Prim.Native.Nat.{bit_and, bit_or}
use ift_encoder.Prelude.{
  ℕ, zero, suc, ◌+◌, ◌-◌, ◌*◌, ◌^◌, List, [], ◌∷◌, ◌++◌, Option, none, some, ◌==◌, ltb, leb,
  if◌then◌else◌, length, get_elem?,
}
use ift_encoder.Prelude.Bits.{shr, shl}
use ift_encoder.BitBuffer.BranchFactor.{BranchFactor, node_size, node_size_log2, twig_size_log2}
use ift_encoder.BitBuffer.Output.{BitOutputBuffer, append}
use ift_encoder.SparseBitSet.Depth.{values_per_bit_log2}
use ift_encoder.SparseBitSet.Twigs.{Levels, level_of, u32}

pub data EncodeState : Type 0 where
  start building_normal_node skipping_filled_node end error : EncodeState

pub data EncodeSymbolType : Type 0 where
  new_normal_node existing_normal_node new_filled_node existing_filled_node : EncodeSymbolType
  end_of_values invalid : EncodeSymbolType

pub record EncodeSymbol : Type 0 where
  pub type : EncodeSymbolType
  pub cp : ℕ

abbrev pub invalid_cp : ℕ
invalid_cp = 2 ^ 32 - 1

pub record EncodeContext : Type 0 where
  pub layer : ℕ
  pub branch_factor : BranchFactor
  pub tree_height : ℕ
  pub per_bit_log2 : ℕ
  pub size : ℕ
  pub filled_levels : Levels
  pub node_bases : List ℕ
  pub next_node_base : ℕ
  pub node_base : ℕ
  pub node_max : ℕ
  pub node_mask : ℕ
  pub filled_max : ℕ
  pub next_node_bases : List ℕ
  pub bit_buffer : BitOutputBuffer

-- The twig of a codepoint.
abbrev pub twig_of : ℕ → EncodeContext → ℕ
twig_of cp context = shr cp (twig_size_log2 context.branch_factor)

unfoldable pub override_if_filled : ℕ → EncodeContext → EncodeSymbolType
unfolding level_of
override_if_filled cp context = elim (level_of context.filled_levels (twig_of cp context)) [
  | none ↦ new_normal_node
  | some filled_level ↦
      if context.layer == filled_level
      then new_filled_node
      else if ltb filled_level context.layer
      then existing_filled_node
      else new_normal_node
]

unfoldable pub parse_codepoint : ℕ → EncodeState → EncodeContext → EncodeSymbol
unfolding override_if_filled
parse_codepoint cp start context = record { type = override_if_filled cp context; cp = cp }
parse_codepoint cp building_normal_node context = record {
  type = if leb cp context.node_max then existing_normal_node else override_if_filled cp context;
  cp = cp;
}
parse_codepoint cp skipping_filled_node context = record {
  type = if leb cp context.filled_max then existing_filled_node else override_if_filled cp context;
  cp = cp;
}
parse_codepoint cp end context = record { type = invalid; cp = invalid_cp }
parse_codepoint cp error context = record { type = invalid; cp = invalid_cp }

-- `node_bases[next_node_base]`
abbrev pub next_base : EncodeContext → Option ℕ
next_base context = get_elem? context.node_bases context.next_node_base

unfoldable pub start_filled_node : EncodeContext → Option EncodeContext
unfolding append
start_filled_node context = elim (next_base context) [
  | none ↦ none
  | some base ↦ some (record context {
    next_node_base = context.next_node_base + 1;
    bit_buffer = append context.bit_buffer 0;
    filled_max = u32 (base + context.size - 1);
  })
]

-- The do-while loop, on fuel for the twigs that are stored: it goes from one to a later one.
unfoldable pub skip_twigs : ℕ → ℕ → EncodeContext → Option ℕ
unfolding level_of
skip_twigs zero twig context = none
skip_twigs (suc fuel) twig context = elim (level_of context.filled_levels twig) [
  | none ↦ none
  | some filled_depth ↦
      let size =
        2 ^ ((context.tree_height - filled_depth - 2) * node_size_log2 context.branch_factor) in
      let twig' = u32 (twig + size) in
      let rest = skip_twigs fuel twig' context in
      elim (level_of context.filled_levels twig') [
        | none ↦ some twig'
        | some level ↦ if ltb level context.layer then rest else some twig'
      ]
]

unfoldable pub skip_existing_filled_node : ℕ → EncodeContext → Option EncodeContext
unfolding skip_twigs
skip_existing_filled_node cp context =
    elim (skip_twigs (length context.filled_levels + 1) (twig_of cp context) context) [
      | none ↦ none
      | some twig ↦ some (record context {
        filled_max = u32 (u32 (shl twig (twig_size_log2 context.branch_factor)) + 2 ^ 32 - 1);
      })
    ]

unfoldable pub end_normal_node : EncodeContext → EncodeContext
unfolding append
end_normal_node context = record context {
  bit_buffer = append context.bit_buffer context.node_mask;
  node_mask = 0;
  node_base = invalid_cp;
  node_max = invalid_cp;
  filled_max = invalid_cp;
}

unfoldable pub update_node_bit : ℕ → EncodeContext → EncodeContext
update_node_bit cp context =
    let bit_index = shr (u32 (cp + 2 ^ 32 - context.node_base)) context.per_bit_log2 in
    let cp_mask = u32 (shl 1 bit_index) in
    if bit_and context.node_mask cp_mask == 0
    then record context {
      node_mask = bit_or context.node_mask cp_mask;
      next_node_bases =
          if ltb 0 context.per_bit_log2
          then context.next_node_bases
            ++ bit_or context.node_base (u32 (shl bit_index context.per_bit_log2)) ∷ []
          else context.next_node_bases;
    }
    else context

unfoldable pub start_new_normal_node : ℕ → EncodeContext → Option EncodeContext
unfolding update_node_bit
start_new_normal_node cp context = elim (next_base context) [
  | none ↦ none
  | some base ↦ some (
      update_node_bit cp (record context {
        node_base = base;
        next_node_base = context.next_node_base + 1;
        node_max = base + context.size - 1;
        filled_max = invalid_cp;
      }))
]

abbrev pub Step : Type 0
Step = Option (EncodeState × EncodeContext)

-- The state that follows a change of the context.
unfoldable pub go_to : EncodeState → Option EncodeContext → Step
go_to state none = none
go_to state (some context) = some (state, context)

unfoldable pub update_start : EncodeSymbol → EncodeContext → Step
unfolding start_new_normal_node start_filled_node skip_existing_filled_node go_to
update_start input context = elim input.type [
  | new_normal_node ↦ go_to building_normal_node (start_new_normal_node input.cp context)
  | new_filled_node ↦ go_to skipping_filled_node (start_filled_node context)
  | existing_filled_node ↦ go_to skipping_filled_node (skip_existing_filled_node input.cp context)
  | _ ↦ some (error, context)
]

unfoldable pub update_building : EncodeSymbol → EncodeContext → Step
unfolding start_new_normal_node start_filled_node skip_existing_filled_node go_to end_normal_node
update_building input context = elim input.type [
  | new_normal_node ↦
      go_to building_normal_node (start_new_normal_node input.cp (end_normal_node context))
  | existing_normal_node ↦ some (building_normal_node, update_node_bit input.cp context)
  | new_filled_node ↦ go_to skipping_filled_node (start_filled_node (end_normal_node context))
  | existing_filled_node ↦
      go_to skipping_filled_node (skip_existing_filled_node input.cp (end_normal_node context))
  | end_of_values ↦ some (end, end_normal_node context)
  | invalid ↦ some (error, context)
]

unfoldable pub update_skipping : EncodeSymbol → EncodeContext → Step
unfolding start_new_normal_node start_filled_node go_to
update_skipping input context = elim input.type [
  | new_normal_node ↦ go_to building_normal_node (start_new_normal_node input.cp context)
  | new_filled_node ↦ go_to skipping_filled_node (start_filled_node context)
  | existing_filled_node ↦ some (skipping_filled_node, context)
  | end_of_values ↦ some (end, context)
  | _ ↦ some (error, context)
]

unfoldable pub update_state : EncodeState → EncodeSymbol → EncodeContext → Step
unfolding update_start update_building update_skipping
update_state start input context = update_start input context
update_state building_normal_node input context = update_building input context
update_state skipping_filled_node input context = update_skipping input context
update_state end input context = some (error, context)
update_state error input context = some (error, context)

unfoldable pub encode_values : List ℕ → EncodeState → EncodeContext → Step
unfolding parse_codepoint update_state
encode_values [] state context = some (state, context)
encode_values (cp ∷ cps) state context =
    elim (update_state state (parse_codepoint cp state context) context) [
      | none ↦ none
      | some (state', context') ↦ encode_values cps state' context'
    ]

-- The context that EncodeLayer starts with.
unfoldable pub start_context :
    ℕ → ℕ → BranchFactor → Levels → List ℕ → List ℕ → BitOutputBuffer → EncodeContext
start_context layer tree_height bf filled_levels node_bases next_node_bases bit_buffer = record {
  layer = layer;
  branch_factor = bf;
  tree_height = tree_height;
  per_bit_log2 = values_per_bit_log2 layer tree_height bf;
  size = shl (node_size bf) (values_per_bit_log2 layer tree_height bf);
  filled_levels = filled_levels;
  node_bases = node_bases;
  next_node_base = 0;
  node_base = invalid_cp;
  node_max = invalid_cp;
  node_mask = 0;
  filled_max = invalid_cp;
  next_node_bases = next_node_bases;
  bit_buffer = bit_buffer;
}

-- The last call of UpdateState.
unfoldable pub finish : Step → Step
unfolding update_state
finish none = none
finish (some (state, context)) =
    update_state state (record { type = end_of_values; cp = invalid_cp }) context

-- The state that the source drops is kept, to speak of it.
unfoldable pub encode_layer :
    List ℕ → ℕ → ℕ → BranchFactor → Levels → List ℕ → List ℕ → BitOutputBuffer → Step
unfolding encode_values start_context finish
encode_layer codepoints layer tree_height bf filled_levels node_bases next_node_bases bit_buffer =
    finish (
      encode_values codepoints start
        (start_context layer tree_height bf filled_levels node_bases next_node_bases bit_buffer))
