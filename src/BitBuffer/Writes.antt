-- ===== src/BitBuffer/Writes.antt =====
-- What BitOutputBuffer leaves in its buffer.
use Prim.Native.Nat.{bit_or}
use mathlib.Core.List.{append_assoc, append-nil}
use ift_encoder.Prelude.{
  ℕ, ◌+◌, ◌*◌, ◌%◌, ◌^◌, ◌<◌, ◌≡◌, refl, sym, ap, ◌∙◌, Bool, true, false, List, [], ◌∷◌, ◌++◌, map,
  arith, All, length,
}
use ift_encoder.Prelude.Bits.{shr, shl, low_bits, bit_or-shl}
use ift_encoder.BitBuffer.BranchFactor.{BranchFactor, bf2, bf4, bf8, bf32}
use ift_encoder.BitBuffer.Output.{
  BitOutputBuffer, to_byte, update_last, create, append, append_all, to_string, encode_first_byte,
}
use ift_encoder.BitBuffer.Nodes.{
  nodes_of, node_bits, WholeNodes, nodes_of-append, WholeNodes-append, per_byte,
}

abbrev state : BranchFactor → List ℕ → ℕ → Bool → BitOutputBuffer
state bf bytes pair first = record {
  branch_factor = bf;
  buffer = bytes;
  current_pair = pair;
  first_nibble = first;
}

-- The buffer `o`, whose first byte is `h`, holds the nodes `vs`: in whole bytes, and the pairs or the
-- nibble that the last byte has so far.
data Held (h : ℕ) (bf : BranchFactor) (o : BitOutputBuffer) (vs : List ℕ) : Type 0 where
  whole :
      (front : List ℕ)
      → WholeNodes bf front
      → o ≡ state bf (h ∷ front) 0 true
      → vs ≡ nodes_of bf front
      → Held h bf o vs
  one_pair :
      (front : List ℕ) (p : ℕ)
      → p < 4
      → bf ≡ bf2
      → o ≡ state bf2 (h ∷ (front ++ p ∷ [])) 1 true
      → vs ≡ nodes_of bf2 front ++ p ∷ []
      → Held h bf o vs
  two_pairs :
      (front : List ℕ) (p q : ℕ)
      → p < 4
      → q < 4
      → bf ≡ bf2
      → o ≡ state bf2 (h ∷ (front ++ (p + q * 4) ∷ [])) 2 true
      → vs ≡ nodes_of bf2 front ++ (p ∷ q ∷ [])
      → Held h bf o vs
  three_pairs :
      (front : List ℕ) (p q r : ℕ)
      → p < 4
      → q < 4
      → r < 4
      → bf ≡ bf2
      → o ≡ state bf2 (h ∷ (front ++ (p + q * 4 + r * 16) ∷ [])) 3 true
      → vs ≡ nodes_of bf2 front ++ (p ∷ q ∷ r ∷ [])
      → Held h bf o vs
  one_nibble :
      (front : List ℕ) (p : ℕ)
      → p < 16
      → bf ≡ bf4
      → o ≡ state bf4 (h ∷ (front ++ p ∷ [])) 0 false
      → vs ≡ nodes_of bf4 front ++ p ∷ []
      → Held h bf o vs

update_last-append :
    (f : ℕ → ℕ) (h b : ℕ) (front : List ℕ)
    → update_last f (h ∷ (front ++ b ∷ [])) ≡ h ∷ (front ++ f b ∷ [])
unfolding update_last
update_last-append f h b [] = refl
update_last-append f h b (x ∷ front) = ap (◌∷◌ h) (update_last-append f x b front)

-- A pair joins the bits below it.
join_pair :
    (k a v : ℕ)
    → a < 2 ^ k
    → v % 4 * 2 ^ k < 256
    → bit_or a (to_byte (shl (low_bits v 2) k)) ≡ a + v % 4 * 2 ^ k
join_pair k a v h l =
    let small : to_byte (shl (low_bits v 2) k) ≡ shl (low_bits v 2) k = grind arith in
    rw small (bit_or-shl k a (low_bits v 2) h)

join_nibble :
    (a v : ℕ)
    → a < 16
    → to_byte (bit_or (low_bits a 4) (shl (low_bits (to_byte v) 4) 4)) ≡ a + v % 16 * 16
join_nibble a v h =
    rw (bit_or-shl 4 (low_bits a 4) (low_bits (to_byte v) 4) (omega arith)) (omega arith)

word_of_bytes :
    (v : ℕ)
    → node_bits bf32 v ∷ []
      ≡ nodes_of bf32 (
          to_byte v
          ∷ to_byte (shr v 8)
          ∷ to_byte (shr (shr v 8) 8)
          ∷ to_byte (shr (shr (shr v 8) 8) 8)
          ∷ [])
unfolding nodes_of
word_of_bytes v = ap (λ (x : ℕ). x ∷ []) (omega arith)

pairs_of_byte :
    (p q r s : ℕ)
    → p < 4
    → q < 4
    → r < 4
    → s < 4
    → (p ∷ q ∷ r ∷ s ∷ []) ≡ nodes_of bf2 ((p + q * 4 + r * 16 + s * 64) ∷ [])
unfolding nodes_of
pairs_of_byte p q r s hp hq hr hs = ground arith

nibbles_of_byte : (p q : ℕ) → p < 16 → q < 16 → (p ∷ q ∷ []) ≡ nodes_of bf4 ((p + q * 16) ∷ [])
unfolding nodes_of
nibbles_of_byte p q hp hq = ground arith

-- The nodes of complete bytes, with more bytes behind them.
extend :
    (bf : BranchFactor) (front tail more bytes : List ℕ)
    → WholeNodes bf front
    → tail ++ more ≡ nodes_of bf bytes
    → (nodes_of bf front ++ tail) ++ more ≡ nodes_of bf (front ++ bytes)
extend bf front tail more bytes w e =
    append_assoc (nodes_of bf front) tail more
    ∙ ap (◌++◌ (nodes_of bf front)) e
    ∙ sym (nodes_of-append bf front bytes w)

append-whole :
    (h : ℕ) (bf : BranchFactor) (front : List ℕ) (v : ℕ)
    → WholeNodes bf front
    → Held h bf (append (state bf (h ∷ front) 0 true) v) (nodes_of bf front ++ node_bits bf v ∷ [])
unfolding append
append-whole h bf2 front v w = one_pair front (v % 4) (omega arith) refl (ground arith) refl
append-whole h bf4 front v w = one_nibble front (v % 16) (omega arith) refl (ground arith) refl
append-whole h bf8 front v w = whole (front ++ to_byte v ∷ []) tt refl (unfold nodes_of in refl)
append-whole h bf32 front v w =
    let bytes : List ℕ =
      to_byte v
      ∷ to_byte (shr v 8)
      ∷ to_byte (shr (shr v 8) 8)
      ∷ to_byte (shr (shr (shr v 8) 8) 8)
      ∷ [] in
    whole (front ++ bytes) (WholeNodes-append bf32 front bytes w (omega arith)) refl
      (ap (◌++◌ (nodes_of bf32 front)) (word_of_bytes v) ∙ sym (nodes_of-append bf32 front bytes w))

append-one_pair :
    (h : ℕ) (front : List ℕ) (p v : ℕ)
    → p < 4
    → Held h bf2
        (append (state bf2 (h ∷ (front ++ p ∷ [])) 1 true) v)
        ((nodes_of bf2 front ++ p ∷ []) ++ node_bits bf2 v ∷ [])
unfolding append
append-one_pair h front p v hp =
    rw (update_last-append _ h p front, join_pair 2 p v hp (omega arith))
      (two_pairs front p (v % 4) hp (omega arith) refl refl
        (append_assoc (nodes_of bf2 front) (p ∷ []) (v % 4 ∷ [])))

append-two_pairs :
    (h : ℕ) (front : List ℕ) (p q v : ℕ)
    → p < 4
    → q < 4
    → Held h bf2
        (append (state bf2 (h ∷ (front ++ (p + q * 4) ∷ [])) 2 true) v)
        ((nodes_of bf2 front ++ (p ∷ q ∷ [])) ++ node_bits bf2 v ∷ [])
unfolding append
append-two_pairs h front p q v hp hq =
    rw
      (
        update_last-append _ h (p + q * 4) front,
        join_pair 4 (p + q * 4) v (omega arith) (omega arith),
      )
      (three_pairs front p q (v % 4) hp hq (omega arith) refl refl
        (append_assoc (nodes_of bf2 front) (p ∷ q ∷ []) (v % 4 ∷ [])))

append-three_pairs :
    (h : ℕ) (front : List ℕ) (p q r v : ℕ)
    → p < 4
    → q < 4
    → r < 4
    → Held h bf2
        (append (state bf2 (h ∷ (front ++ (p + q * 4 + r * 16) ∷ [])) 3 true) v)
        ((nodes_of bf2 front ++ (p ∷ q ∷ r ∷ [])) ++ node_bits bf2 v ∷ [])
unfolding append
append-three_pairs h front p q r v hp hq hr =
    rw
      (
        update_last-append _ h (p + q * 4 + r * 16) front,
        join_pair 6 (p + q * 4 + r * 16) v (omega arith) (omega arith),
      )
      (whole (front ++ (p + q * 4 + r * 16 + v % 4 * 64) ∷ []) tt refl (
        extend bf2 front (p ∷ q ∷ r ∷ []) (v % 4 ∷ []) _ tt
          (pairs_of_byte p q r (v % 4) hp hq hr (omega arith))))

append-one_nibble :
    (h : ℕ) (front : List ℕ) (p v : ℕ)
    → p < 16
    → Held h bf4
        (append (state bf4 (h ∷ (front ++ p ∷ [])) 0 false) v)
        ((nodes_of bf4 front ++ p ∷ []) ++ node_bits bf4 v ∷ [])
unfolding append
append-one_nibble h front p v hp =
    rw (update_last-append _ h p front, join_nibble p v hp)
      (whole (front ++ (p + v % 16 * 16) ∷ []) tt refl (
        extend bf4 front (p ∷ []) (v % 16 ∷ []) _ tt (nibbles_of_byte p (v % 16) hp (omega arith))))

append-Held :
    (h : ℕ) (bf : BranchFactor) (o : BitOutputBuffer) (vs : List ℕ) (v : ℕ)
    → Held h bf o vs
    → Held h bf (append o v) (vs ++ node_bits bf v ∷ [])
append-Held h bf o vs v (whole front w e k) = rw (e, k) (append-whole h bf front v w)
append-Held h bf o vs v (one_pair front p hp b e k) = rw (b, e, k) (append-one_pair h front p v hp)
append-Held h bf o vs v (two_pairs front p q hp hq b e k) =
    rw (b, e, k) (append-two_pairs h front p q v hp hq)
append-Held h bf o vs v (three_pairs front p q r hp hq hr b e k) =
    rw (b, e, k) (append-three_pairs h front p q r v hp hq hr)
append-Held h bf o vs v (one_nibble front p hp b e k) =
    rw (b, e, k) (append-one_nibble h front p v hp)

append_all-Held :
    (h : ℕ) (bf : BranchFactor) (ws : List ℕ) (o : BitOutputBuffer) (vs : List ℕ)
    → Held h bf o vs
    → Held h bf (append_all o ws) (vs ++ map (node_bits bf) ws)
unfolding append_all
append_all-Held h bf [] o vs held = rw append-nil held
append_all-Held h bf (w ∷ ws) o vs held =
    rw (← append_assoc vs (node_bits bf w ∷ []) (map (node_bits bf) ws))
      (append_all-Held h bf ws (append o w) _ (append-Held h bf o vs w held))

-- The nodes of whole bytes are the sequence, and the zeros that fill the last byte.
abbrev pub Padded : BranchFactor → List ℕ → List ℕ → Type 0
Padded bf vs bytes =
    (pad : List ℕ) × WholeNodes bf bytes
    × (vs ++ pad ≡ nodes_of bf bytes)
    × All (λ x. x ≡ 0) pad
    × (length pad < per_byte bf)

padded :
    (bf : BranchFactor) (front tail pad : List ℕ) (b : ℕ)
    → WholeNodes bf front
    → WholeNodes bf (b ∷ [])
    → tail ++ pad ≡ nodes_of bf (b ∷ [])
    → All (λ x. x ≡ 0) pad
    → length pad < per_byte bf
    → Padded bf (nodes_of bf front ++ tail) (front ++ b ∷ [])
padded bf front tail pad b w w' e z l =
    (pad, WholeNodes-append bf front (b ∷ []) w w', extend bf front tail pad (b ∷ []) w e, z, l)

per_byte_pos : (bf : BranchFactor) → 0 < per_byte bf
per_byte_pos bf2 = omega arith
per_byte_pos bf4 = omega arith
per_byte_pos bf8 = omega arith
per_byte_pos bf32 = omega arith

-- The first byte stays, and the bytes behind it hold the nodes.
Held-Padded :
    (h : ℕ) (bf : BranchFactor) (o : BitOutputBuffer) (vs : List ℕ)
    → Held h bf o vs
    → (body : List ℕ) × (o.buffer ≡ h ∷ body) × Padded bf vs body
unfolding nodes_of
Held-Padded h bf o vs (whole front w e k) =
    (front, rw e, ([], w, rw k (append-nil _), tt, per_byte_pos bf))
Held-Padded h bf o vs (one_pair front p hp b e k) = (
  front ++ p ∷ [],
  rw e,
  rw (b, k)
      (padded bf2 front (p ∷ []) (0 ∷ 0 ∷ 0 ∷ []) p tt tt (ground arith) (omega arith)
        (omega arith)),
)
Held-Padded h bf o vs (two_pairs front p q hp hq b e k) = (
  front ++ (p + q * 4) ∷ [],
  rw e,
  rw (b, k)
      (padded bf2 front (p ∷ q ∷ []) (0 ∷ 0 ∷ []) (p + q * 4) tt tt (ground arith) (omega arith)
        (omega arith)),
)
Held-Padded h bf o vs (three_pairs front p q r hp hq hr b e k) = (
  front ++ (p + q * 4 + r * 16) ∷ [],
  rw e,
  rw (b, k)
      (padded bf2 front (p ∷ q ∷ r ∷ []) (0 ∷ []) (p + q * 4 + r * 16) tt tt (ground arith)
        (omega arith) (omega arith)),
)
Held-Padded h bf o vs (one_nibble front p hp b e k) = (
  front ++ p ∷ [],
  rw e,
  rw (b, k) (padded bf4 front (p ∷ []) (0 ∷ []) p tt tt (ground arith) (omega arith) (omega arith)),
)

-- After any calls of append the string is the first byte, and the bytes behind it hold the low bits
-- of the values in order, with zero nodes behind them that fill the last byte.
pub append_all-Padded :
    (bf : BranchFactor) (depth : ℕ) (vs : List ℕ)
    → (body : List ℕ) × (to_string (append_all (create bf depth) vs)
        ≡ encode_first_byte bf depth ∷ body)
      × Padded bf (map (node_bits bf) vs) body
unfolding create nodes_of
append_all-Padded bf depth vs =
    Held-Padded (encode_first_byte bf depth) bf (append_all (create bf depth) vs)
      (map (node_bits bf) vs) (append_all-Held _ bf vs (create bf depth) [] (start bf))
  where
    start : (bf : BranchFactor) → Held (encode_first_byte bf depth) bf (create bf depth) []
    start bf2 = whole [] tt refl refl
    start bf4 = whole [] tt refl refl
    start bf8 = whole [] tt refl refl
    start bf32 = whole [] tt refl refl
