-- ===== src/SparseBitSet/Nodes.antt =====
-- ift/common/sparse_bit_set.cc: the node bases that EncodeLayer takes from the layer above.
use ift_encoder.Prelude.{
  ℕ, zero, suc, ◌+◌, ◌-◌, ◌%◌, ◌^◌, ◌≤◌, ◌≡◌, false, refl, ◌∙◌, ap, List, [], ◌∷◌, some, ◌==◌, ltb,
  leb, if◌then◌else◌, length, get_elem?, drop, arith, Bool-cases, inl, inr, if-true, if-false,
}
use ift_encoder.Prelude.Bits.{shl, shr}
use Prim.Native.Nat.{bit_and}
use ift_encoder.Brotli.Bits.{two_pow_pos}
use ift_encoder.BitBuffer.BranchFactor.{BranchFactor, bf2, bf4, bf8, bf32, node_size}
use ift_encoder.BitBuffer.Output.{BitOutputBuffer}
use ift_encoder.SparseBitSet.Depth.{values_per_bit_log2}
use ift_encoder.SparseBitSet.Twigs.{level_of, u32}
use ift_encoder.SparseBitSet.Layers.{
  start, building_normal_node, end, new_normal_node, EncodeContext, override_if_filled,
  parse_codepoint, end_normal_node, update_node_bit, start_new_normal_node, go_to, update_start,
  update_building, update_state, encode_values, encode_layer, start_context, finish,
}

-- The bases of the nodes of a layer that hold the values, in order; `stop` is the first value behind
-- the node before them, and `size` the number of values of a node.
unfoldable pub bases_of : ℕ → ℕ → List ℕ → List ℕ
bases_of size stop [] = []
bases_of size stop (cp ∷ cps) =
    let base = cp - cp % size in
    let same_node = bases_of size stop cps in
    let next_nodes = bases_of size (base + size) cps in
    if ltb cp stop then same_node else base ∷ next_nodes

drop-first :
    (n : ℕ) (xs : List ℕ) {x : ℕ} {rest : List ℕ}
    → drop n xs ≡ x ∷ rest
    → (get_elem? xs n ≡ some x) × (drop (n + 1) xs ≡ rest) × (n + 1 ≤ length xs)
drop-first zero [] e = cc
drop-first zero (y ∷ xs) e = (cc, cc, omega arith)
drop-first (suc n) [] e = cc
drop-first (suc n) (y ∷ xs) e = ground (arith, drop-first n xs e)

drop-nothing : (n : ℕ) (xs : List ℕ) → drop n xs ≡ [] → n ≤ length xs → n ≡ length xs
drop-nothing zero [] e h = refl
drop-nothing zero (y ∷ xs) e h = cc
drop-nothing (suc n) [] e h = absurd (omega arith)
drop-nothing (suc n) (y ∷ xs) e h = omega (arith, drop-nothing n xs e (omega arith))

-- No twig is filled, and what is left of the queue are the nodes of the values that are left.
record Queued (queue cps : List ℕ) (stop : ℕ) (c : EncodeContext) : Type 0 where
  positive : 1 ≤ c.size
  no_levels : c.filled_levels ≡ []
  taken_from : c.node_bases ≡ queue
  within : c.next_node_base ≤ length queue
  left : drop c.next_node_base queue ≡ bases_of c.size stop cps

update_node_bit-Queued :
    (queue : List ℕ) (cp : ℕ) (cps : List ℕ) (c : EncodeContext)
    → Queued queue cps (c.node_max + 1) c
    → let d = update_node_bit cp c in Queued queue cps (d.node_max + 1) d
unfolding update_node_bit
update_node_bit-Queued queue cp cps c q =
    elim (Bool-cases (
      bit_and c.node_mask (u32 (shl 1 (shr (u32 (cp + 2 ^ 32 - c.node_base)) c.per_bit_log2)))
      == 0)) [
        | inl e ↦ rw e (record {
          positive = q.positive;
          no_levels = q.no_levels;
          taken_from = q.taken_from;
          within = q.within;
          left = q.left;
        })
        | inr e ↦ rw e q
      ]

ends : (base size : ℕ) → 1 ≤ size → base + size ≡ base + size - 1 + 1
ends base size h = omega arith

-- A value behind the last node starts the node of the next base in the queue.
start-Queued :
    (queue : List ℕ) (cp : ℕ) (cps : List ℕ) (stop : ℕ) (c : EncodeContext)
    → Queued queue (cp ∷ cps) stop c
    → ltb cp stop ≡ false
    → (d : EncodeContext) × (start_new_normal_node cp c ≡ some d)
      × Queued queue cps (d.node_max + 1) d
unfolding start_new_normal_node bases_of
start-Queued queue cp cps stop c q behind =
    let first = drop-first c.next_node_base queue (q.left ∙ if-false _ _ behind) in
    rw (q.taken_from, first.0, start_new_normal_node)
      (
        _,
        refl,
        update_node_bit-Queued queue cp cps _ (record {
          positive = q.positive;
          no_levels = q.no_levels;
          taken_from = q.taken_from;
          within = first.2;
          left =
              first.1 ∙ ap (λ n. bases_of c.size n cps) (ends (cp - cp % c.size) c.size q.positive);
        }),
      )

override_lem :
    (cp : ℕ) (c : EncodeContext) → c.filled_levels ≡ [] → override_if_filled cp c ≡ new_normal_node
unfolding override_if_filled level_of
override_lem cp c e = rw e refl

step_building :
    (queue : List ℕ) (cp : ℕ) (cps : List ℕ) (c : EncodeContext)
    → Queued queue (cp ∷ cps) (c.node_max + 1) c
    → (d : EncodeContext) × (update_state building_normal_node
          (parse_codepoint cp building_normal_node c)
          c
        ≡ some (building_normal_node, d))
      × Queued queue cps (d.node_max + 1) d
unfolding update_state update_building parse_codepoint go_to bases_of end_normal_node
step_building queue cp cps c q = elim (Bool-cases (leb cp c.node_max)) [
  | inl e ↦ rw e (
    _,
    refl,
    update_node_bit-Queued queue cp cps c (record {
      positive = q.positive;
      no_levels = q.no_levels;
      taken_from = q.taken_from;
      within = q.within;
      left = q.left ∙ if-true {b = ltb cp (c.node_max + 1)} _ _ (ground arith);
    }),
  )
  | inr e ↦
      let (d, goes, q') =
        start-Queued queue cp cps (c.node_max + 1) (end_normal_node c)
          (record {
            positive = q.positive;
            no_levels = q.no_levels;
            taken_from = q.taken_from;
            within = q.within;
            left = q.left;
          })
          (ground arith) in
      rw (e, override_lem cp c q.no_levels, goes) (d, refl, q')
]

walk :
    (queue : List ℕ) (cps : List ℕ) (c : EncodeContext)
    → Queued queue cps (c.node_max + 1) c
    → (d : EncodeContext) × (encode_values cps building_normal_node c
        ≡ some (building_normal_node, d))
      × (d.next_node_base ≡ length queue)
unfolding encode_values bases_of
walk queue [] c q = (c, refl, drop-nothing c.next_node_base queue q.left q.within)
walk queue (cp ∷ cps) c q =
    let (d, goes, q') = step_building queue cp cps c q in
    rw (goes, encode_values) (walk queue cps d q')

step_start :
    (queue : List ℕ) (cp : ℕ) (cps : List ℕ) (c : EncodeContext)
    → Queued queue (cp ∷ cps) 0 c
    → (d : EncodeContext) × (update_state start (parse_codepoint cp start c) c
        ≡ some (building_normal_node, d))
      × Queued queue cps (d.node_max + 1) d
unfolding update_state update_start parse_codepoint go_to
step_start queue cp cps c q =
    let (d, goes, q') = start-Queued queue cp cps 0 c q (ground arith) in
    rw (override_lem cp c q.no_levels, goes) (d, refl, q')

node_size_pos : (bf : BranchFactor) (k : ℕ) → 1 ≤ shl (node_size bf) k
node_size_pos bf2 k = omega (arith, two_pow_pos k)
node_size_pos bf4 k = omega (arith, two_pow_pos k)
node_size_pos bf8 k = omega (arith, two_pow_pos k)
node_size_pos bf32 k = omega (arith, two_pow_pos k)

finish_building :
    (d : EncodeContext)
    → (e : EncodeContext) × (finish (some (building_normal_node, d)) ≡ some (end, e))
      × (e.next_node_base ≡ d.next_node_base)
unfolding finish update_state update_building end_normal_node
finish_building d = (_, refl, refl)

-- In a layer without filled twigs, if the queue from the layer above has the bases of the nodes that
-- hold the codepoints, in order, then the state machine comes to the state END and has taken the whole
-- queue: it reads no base behind the end of the queue, and leaves none in it.
pub encode_layer-takes :
    (cp : ℕ) (cps : List ℕ) (layer tree_height : ℕ) (bf : BranchFactor)
    (node_bases next_node_bases : List ℕ) (bit_buffer : BitOutputBuffer)
    → node_bases
      ≡ bases_of (shl (node_size bf) (values_per_bit_log2 layer tree_height bf)) 0 (cp ∷ cps)
    → (e : EncodeContext) × (encode_layer
          (cp ∷ cps)
          layer
          tree_height
          bf
          []
          node_bases
          next_node_bases
          bit_buffer
        ≡ some (end, e))
      × (e.next_node_base ≡ length node_bases)
unfolding encode_layer encode_values start_context
encode_layer-takes cp cps layer tree_height bf node_bases next_node_bases bit_buffer same =
    let c = start_context layer tree_height bf [] node_bases next_node_bases bit_buffer in
    let (d, goes, q) = step_start node_bases cp cps c (record {
      positive = node_size_pos bf (values_per_bit_log2 layer tree_height bf);
      no_levels = refl;
      taken_from = refl;
      within = omega arith;
      left = same;
    }) in
    let (d', goes', all) = walk node_bases cps d q in
    let (e, goes'', kept) = finish_building d' in
    (e, rw (goes, encode_values, goes') goes'', kept ∙ all)
