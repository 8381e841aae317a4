-- ===== src/SparseBitSet/Choose.antt =====
-- ChooseBranchFactor and SparseBitSet::Encode without a branch factor. EstimateTreeSize multiplies with
-- floating point numbers, and is a parameter.
use Prim.Native.Nat.{bit_and}
use ift_encoder.Prelude.{
  ℕ, ◌+◌, ◌-◌, ◌^◌, Bool, ◌||◌, List, [], ◌∷◌, ◌++◌, Option, some, ◌==◌, ltb, leb, if◌then◌else◌,
  length,
}
use ift_encoder.Prelude.Bits.{shr, shl}
use ift_encoder.BitBuffer.BranchFactor.{
  BranchFactor, bf2, bf4, bf8, bf32, node_size, node_size_log2, twig_size, twig_size_log2,
  max_depth,
}
use ift_encoder.SparseBitSet.Depth.{tree_depth_for_values}
use ift_encoder.SparseBitSet.Twigs.{u32, node_size_bit_mask, twig_size_bit_mask}
use ift_encoder.SparseBitSet.Encode.{encode_set}

-- An array with an entry for each branch factor.
pub record PerFactor {ℓ} (A : Type ℓ) : Type ℓ where
  pub at2 : A
  pub at4 : A
  pub at8 : A
  pub at32 : A

unfoldable pub lookup_factor {ℓ} : {A : Type ℓ} → PerFactor A → BranchFactor → A
lookup_factor p bf2 = p.at2
lookup_factor p bf4 = p.at4
lookup_factor p bf8 = p.at8
lookup_factor p bf32 = p.at32

-- The number of nodes without a value between two values, added to `count`.
unfoldable pub add_empty : BranchFactor → ℕ → ℕ → ℕ → ℕ
add_empty bf prev_cp cp count =
    let first_missing = u32 (prev_cp + 1) in
    let remainder = bit_and first_missing (node_size_bit_mask bf) in
    let start =
      if remainder == 0 then first_missing else u32 (first_missing + (node_size bf - remainder)) in
    let last = cp - bit_and cp (node_size_bit_mask bf) in
    if ltb start last then u32 (count + shr (last - start) (node_size_log2 bf)) else count

unfoldable pub advance_to_cp : ℕ → ℕ → PerFactor ℕ → PerFactor ℕ
unfolding add_empty
advance_to_cp prev_cp cp empty_leaves =
    if ltb cp (node_size bf2) || ltb (u32 (cp + 2 ^ 32 - prev_cp)) (node_size bf2)
    then empty_leaves
    else record {
      at2 = add_empty bf2 prev_cp cp empty_leaves.at2;
      at4 = add_empty bf4 prev_cp cp empty_leaves.at4;
      at8 = add_empty bf8 prev_cp cp empty_leaves.at8;
      at32 = add_empty bf32 prev_cp cp empty_leaves.at32;
    }

-- The value is the last of a twig.
abbrev pub ends_twig : BranchFactor → ℕ → Bool
ends_twig bf cp = bit_and cp (twig_size_bit_mask bf) == twig_size_bit_mask bf

abbrev pub note_twig : BranchFactor → ℕ → ℕ → List ℕ → List ℕ
note_twig bf seq_len cp twigs =
    if leb (twig_size bf) seq_len then twigs ++ shr cp (twig_size_log2 bf) ∷ [] else twigs

-- The loop over the branch factors, which is left at the first twig that does not end.
unfoldable pub note_twigs : ℕ → ℕ → PerFactor (List ℕ) → PerFactor (List ℕ)
note_twigs seq_len cp twigs =
    let t2 = record twigs { at2 = note_twig bf2 seq_len cp twigs.at2 } in
    let t4 = record t2 { at4 = note_twig bf4 seq_len cp twigs.at4 } in
    let t8 = record t4 { at8 = note_twig bf8 seq_len cp twigs.at8 } in
    let t32 = record t8 { at32 = note_twig bf32 seq_len cp twigs.at32 } in
    if ends_twig bf2 cp
    then (if ends_twig bf4 cp
        then (if ends_twig bf8 cp then (if ends_twig bf32 cp then t32 else t8) else t4)
        else t2)
    else twigs

pub record Survey : Type 0 where
  pub empty_leaves : PerFactor ℕ
  pub all_filled_twigs : PerFactor (List ℕ)
  pub seq_len : ℕ
  pub prev_cp : ℕ

unfoldable pub survey_cp : ℕ → Survey → Survey
unfolding advance_to_cp note_twigs
survey_cp cp s =
    let run = if cp == u32 (s.prev_cp + 1) then s.seq_len + 1 else 1 in
    record {
      empty_leaves = advance_to_cp s.prev_cp cp s.empty_leaves;
      all_filled_twigs = note_twigs run cp s.all_filled_twigs;
      seq_len = run;
      prev_cp = cp;
    }

unfoldable pub survey_all : List ℕ → Survey → Survey
unfolding survey_cp
survey_all [] s = s
survey_all (cp ∷ cps) s = survey_all cps (survey_cp cp s)

unfoldable pub survey_from : ℕ → List ℕ → Survey
unfolding survey_all advance_to_cp
survey_from cp cps = survey_all cps (record {
  empty_leaves = advance_to_cp (2 ^ 32 - 1) cp (record { at2 = 0; at4 = 0; at8 = 0; at32 = 0 });
  all_filled_twigs = record { at2 = []; at4 = []; at8 = []; at32 = [] };
  seq_len = 1;
  prev_cp = cp;
})

-- `prev_cp` at the end of its node.
unfoldable pub finish_node : BranchFactor → ℕ → ℕ
finish_node bf prev_cp =
    let remainder = bit_and (u32 (prev_cp + 1)) (node_size_bit_mask bf) in
    if remainder == 0 then prev_cp else u32 (prev_cp + (node_size bf - remainder))

-- The switch: nodes of 2, 4, 8 and 32 bits as bytes.
unfoldable pub nodes_to_bytes : BranchFactor → ℕ → ℕ
nodes_to_bytes bf2 nodes = shr nodes 2
nodes_to_bytes bf4 nodes = shr nodes 1
nodes_to_bytes bf8 nodes = nodes
nodes_to_bytes bf32 nodes = u32 (shl nodes 2)

module _ (estimate_tree_size : ℕ → BranchFactor → ℕ) where
  -- One round of the loop that estimates the bytes, where `prev_cp` ends its node already.
  unfoldable pub bytes_for : BranchFactor → ℕ → Survey → ℕ
  unfolding nodes_to_bytes lookup_factor
  bytes_for bf prev_cp s =
      let processed_leaves = shr (u32 (prev_cp + 1)) (node_size_log2 bf) in
      let filled_leaves =
        u32 (shl (length (lookup_factor s.all_filled_twigs bf)) (node_size_log2 bf)) in
      let leaf_nodes =
        u32
          (processed_leaves + 2 ^ 32 - lookup_factor s.empty_leaves bf + 2 ^ 32 - filled_leaves) in
      nodes_to_bytes bf (u32 (leaf_nodes + estimate_tree_size leaf_nodes bf))

  -- Each round goes on with the value that the one before has left.
  unfoldable pub estimate_bytes : Survey → PerFactor ℕ
  unfolding finish_node bytes_for
  estimate_bytes s =
      let end2 = finish_node bf2 s.prev_cp in
      let end4 = finish_node bf4 end2 in
      let end8 = finish_node bf8 end4 in
      let end32 = finish_node bf32 end8 in
      record {
        at2 = bytes_for bf2 end2 s;
        at4 = bytes_for bf4 end4 s;
        at8 = bytes_for bf8 end8 s;
        at32 = bytes_for bf32 end32 s;
      }

  -- A branch factor that is not too deep and takes fewer bytes than the best so far.
  unfoldable pub keep_optimal : List ℕ → PerFactor ℕ → BranchFactor → BranchFactor → BranchFactor
  unfolding tree_depth_for_values lookup_factor
  keep_optimal codepoints bytes bf optimal =
      if ltb (max_depth bf) (tree_depth_for_values codepoints bf)
      then optimal
      else if ltb (lookup_factor bytes bf) (lookup_factor bytes optimal)
      then bf
      else optimal

  -- The branch factor, and the filled twigs that the source writes to its last argument.
  unfoldable pub choose_branch_factor : List ℕ → BranchFactor × List ℕ
  unfolding survey_from estimate_bytes keep_optimal lookup_factor
  choose_branch_factor [] = (bf8, [])
  choose_branch_factor (cp ∷ cps) =
      let s = survey_from cp cps in
      let bytes = estimate_bytes s in
      let pick = keep_optimal (cp ∷ cps) bytes in
      let optimal = pick bf8 (pick bf32 (pick bf2 bf4)) in
      (optimal, lookup_factor s.all_filled_twigs optimal)

  unfoldable pub encode_any : List ℕ → Option (List ℕ)
  unfolding choose_branch_factor encode_set
  encode_any [] = some []
  encode_any (cp ∷ cps) =
      let (bf, filled_twigs) = choose_branch_factor (cp ∷ cps) in
      encode_set (cp ∷ cps) bf filled_twigs
