-- ===== src/BitBuffer/Reads.antt =====
-- What BitInputBuffer reads.
use Prim.Native.Nat.{bit_or}
use native.Mathlib.Nat.{add-zero}
use native.Mathlib.Numerals.{add-one, towards_suc}
use ift_encoder.Prelude.{
  ℕ, zero, suc, ◌+◌, ◌*◌, ◌%◌, ◌^◌, ◌/◌, ◌<◌, ◌≤◌, ◌≡◌, refl, ap, ◌∙◌, Bool, true, false, List, [],
  ◌∷◌, ◌++◌, arith, drop, get_or, length, length-append, some,
}
use ift_encoder.Prelude.Bits.{shl, shl-bit_or}
use ift_encoder.BitBuffer.BranchFactor.{BranchFactor, bf2, bf4, bf8, bf32}
use ift_encoder.BitBuffer.Input.{
  BitInputBuffer, read, read_all, remaining, open_buffer, decode_branch_factor, decode_depth,
}
use ift_encoder.BitBuffer.Nodes.{nodes_of, WholeNodes, pairs, nibbles, word, per_byte}

low_bits_id : (n : ℕ) → n < 2 ^ 32 → n % 2 ^ 32 ≡ n
low_bits_id n h = omega arith

drop-cons :
    (n : ℕ) (xs : List ℕ) {y : ℕ} {ys : List ℕ}
    → drop n xs ≡ y ∷ ys
    → (n < length xs) × (get_or xs n 0 ≡ y) × (drop (suc n) xs ≡ ys)
drop-cons zero [] e = cc
drop-cons zero (x ∷ xs) e = (omega arith, cc, cc)
drop-cons (suc n) [] e = cc
drop-cons (suc n) (x ∷ xs) e = ground (arith, drop-cons n xs e)

abbrev state : BranchFactor → ℕ → List ℕ → ℕ → ℕ → Bool → BitInputBuffer
state bf depth bits byte pair first = record {
  branch_factor = bf;
  depth = depth;
  bits = bits;
  current_byte = byte;
  current_pair = pair;
  first_nibble = first;
}

-- The buffer stands in front of the nodes `vs`, behind which the bytes `tail` follow.
data Reading (tail : List ℕ) (bf : BranchFactor) (i : BitInputBuffer) (vs : List ℕ) : Type 0 where
  at_byte :
      (depth n : ℕ) (bits bytes : List ℕ)
      → length bits < 2 ^ 32
      → n ≤ length bits
      → WholeNodes bf bytes
      → drop n bits ≡ bytes ++ tail
      → i ≡ state bf depth bits n 0 true
      → vs ≡ nodes_of bf bytes
      → Reading tail bf i vs
  at_pair :
      (depth n k b : ℕ) (bits bytes : List ℕ)
      → length bits < 2 ^ 32
      → k < 3
      → drop n bits ≡ b ∷ (bytes ++ tail)
      → bf ≡ bf2
      → i ≡ state bf2 depth bits n (suc k) true
      → vs ≡ drop (suc k) (pairs b) ++ nodes_of bf2 bytes
      → Reading tail bf i vs
  at_nibble :
      (depth n b : ℕ) (bits bytes : List ℕ)
      → length bits < 2 ^ 32
      → drop n bits ≡ b ∷ (bytes ++ tail)
      → bf ≡ bf4
      → i ≡ state bf4 depth bits n 0 false
      → vs ≡ b / 16 ∷ nodes_of bf4 bytes
      → Reading tail bf i vs

-- If nodes are left, then `read` returns the next one and goes on to the others.
abbrev Delivers : List ℕ → BranchFactor → BitInputBuffer → List ℕ → Type 0
Delivers tail bf i [] = Unit
Delivers tail bf i (v ∷ vs) =
    (i' : BitInputBuffer) × (read i ≡ some (v, i')) × Reading tail bf i' vs

module _ (tail : List ℕ) (depth n : ℕ) (bits bytes : List ℕ) (short : length bits < 2 ^ 32) where
  read_byte_pair :
      (b : ℕ)
      → drop n bits ≡ b ∷ (bytes ++ tail)
      → Delivers tail bf2 (state bf2 depth bits n 0 true) (pairs b ++ nodes_of bf2 bytes)
  unfolding read
  read_byte_pair b e =
      let d = drop-cons n bits e in
      (
        state bf2 depth bits n 1 true,
        ground (arith, d),
        at_pair depth n 0 b bits bytes short (omega arith) e refl refl refl,
      )

  read_next_pair :
      (k b : ℕ)
      → k < 3
      → drop n bits ≡ b ∷ (bytes ++ tail)
      → Delivers tail bf2
          (state bf2 depth bits n (suc k) true)
          (drop (suc k) (pairs b) ++ nodes_of bf2 bytes)
  unfolding read
  read_next_pair zero b h e =
      let d = drop-cons n bits e in
      (
        state bf2 depth bits n 2 true,
        ground (arith, d),
        at_pair depth n 1 b bits bytes short (omega arith) e refl refl refl,
      )
  read_next_pair (suc zero) b h e =
      let d = drop-cons n bits e in
      (
        state bf2 depth bits n 3 true,
        ground (arith, d),
        at_pair depth n 2 b bits bytes short (omega arith) e refl refl refl,
      )
  read_next_pair (suc (suc zero)) b h e =
      let d = drop-cons n bits e in
      (
        state bf2 depth bits (n + 1) 0 true,
        ground (arith, d, low_bits_id (n + 1)),
        at_byte depth (n + 1) bits bytes short (omega (arith, d.0)) tt (rw add-one d.2) refl refl,
      )
  read_next_pair (suc (suc (suc k))) b h e = absurd (omega arith)

  read_low_nibble :
      (b : ℕ)
      → drop n bits ≡ b ∷ (bytes ++ tail)
      → Delivers tail bf4 (state bf4 depth bits n 0 true) (nibbles b ++ nodes_of bf4 bytes)
  unfolding read
  read_low_nibble b e =
      let d = drop-cons n bits e in
      (
        state bf4 depth bits n 0 false,
        ground (arith, d),
        at_nibble depth n b bits bytes short e refl refl refl,
      )

  read_high_nibble :
      (b : ℕ)
      → drop n bits ≡ b ∷ (bytes ++ tail)
      → Delivers tail bf4 (state bf4 depth bits n 0 false) (b / 16 ∷ nodes_of bf4 bytes)
  unfolding read
  read_high_nibble b e =
      let d = drop-cons n bits e in
      (
        state bf4 depth bits (n + 1) 0 true,
        ground (arith, d, low_bits_id (n + 1)),
        at_byte depth (n + 1) bits bytes short (omega (arith, d.0)) tt (rw add-one d.2) refl refl,
      )

  read_whole_byte :
      (b : ℕ)
      → drop n bits ≡ b ∷ (bytes ++ tail)
      → Delivers tail bf8 (state bf8 depth bits n 0 true) (b ∷ bytes)
  unfolding read nodes_of
  read_whole_byte b e =
      let d = drop-cons n bits e in
      (
        state bf8 depth bits (n + 1) 0 true,
        ground (arith, d, low_bits_id (n + 1)),
        at_byte depth (n + 1) bits bytes short (omega (arith, d.0)) tt (rw add-one d.2) refl refl,
      )

join_bytes :
    (a b c d : ℕ)
    → a < 256
    → b < 256
    → c < 256
    → bit_or (bit_or (bit_or (shl d 24) (shl c 16)) (shl b 8)) a ≡ word a b c d
join_bytes a b c d ha hb hc =
    let upper : bit_or (shl d 24) (shl c 16) ≡ shl (d * 256 + c) 16 =
      omega (arith, shl-bit_or 24 (shl c 16) d (omega arith)) in
    let middle : bit_or (shl (d * 256 + c) 16) (shl b 8) ≡ shl ((d * 256 + c) * 256 + b) 8 =
      omega (arith, shl-bit_or 16 (shl b 8) (d * 256 + c) (omega arith)) in
    rw upper (rw middle (omega (arith, shl-bit_or 8 a ((d * 256 + c) * 256 + b) ha)))

read_whole_word :
    (tail : List ℕ) (depth n a b c d : ℕ) (bits bytes : List ℕ)
    → length bits < 2 ^ 32
    → WholeNodes bf32 (a ∷ b ∷ c ∷ d ∷ bytes)
    → drop n bits ≡ a ∷ b ∷ c ∷ d ∷ (bytes ++ tail)
    → Delivers tail bf32 (state bf32 depth bits n 0 true) (nodes_of bf32 (a ∷ b ∷ c ∷ d ∷ bytes))
unfolding read nodes_of
read_whole_word tail depth n a b c d bits bytes short w e =
    let d0 = drop-cons n bits e in
    let d1 = drop-cons (suc n) bits d0.2 in
    let d2 = drop-cons (suc (suc n)) bits d1.2 in
    let d3 = drop-cons (suc (suc (suc n))) bits d2.2 in
    (
      state bf32 depth bits (n + 4) 0 true,
      simp towards_suc
          (ground (arith, d0.1, d1.1, d2.1, d3.0, d3.1, join_bytes a b c d w.0 w.1 w.2)),
      at_byte depth (n + 4) bits bytes short (omega (arith, d3.0)) w.4 (simp towards_suc d3.2) refl
          refl,
    )

read_at_byte :
    (bf : BranchFactor) (tail : List ℕ) (depth n : ℕ) (bits bytes : List ℕ)
    → length bits < 2 ^ 32
    → WholeNodes bf bytes
    → drop n bits ≡ bytes ++ tail
    → Delivers tail bf (state bf depth bits n 0 true) (nodes_of bf bytes)
unfolding nodes_of
read_at_byte bf2 tail depth n bits [] short w e = tt
read_at_byte bf2 tail depth n bits (b ∷ bytes) short w e =
    read_byte_pair tail depth n bits bytes short b e
read_at_byte bf4 tail depth n bits [] short w e = tt
read_at_byte bf4 tail depth n bits (b ∷ bytes) short w e =
    read_low_nibble tail depth n bits bytes short b e
read_at_byte bf8 tail depth n bits [] short w e = tt
read_at_byte bf8 tail depth n bits (b ∷ bytes) short w e =
    read_whole_byte tail depth n bits bytes short b e
read_at_byte bf32 tail depth n bits [] short w e = tt
read_at_byte bf32 tail depth n bits (a ∷ b ∷ c ∷ d ∷ bytes) short w e =
    read_whole_word tail depth n a b c d bits bytes short w e
read_at_byte bf32 tail depth n bits (a ∷ b ∷ c ∷ []) short w e = absurd w
read_at_byte bf32 tail depth n bits (a ∷ b ∷ []) short w e = absurd w
read_at_byte bf32 tail depth n bits (a ∷ []) short w e = absurd w

read-Reading :
    (tail : List ℕ) (bf : BranchFactor) (i : BitInputBuffer) (vs : List ℕ)
    → Reading tail bf i vs
    → Delivers tail bf i vs
read-Reading tail bf i vs (at_byte depth n bits bytes short within w e s k) =
    rw (s, k) (read_at_byte bf tail depth n bits bytes short w e)
read-Reading tail bf i vs (at_pair depth n k b bits bytes short h e p s q) =
    rw (p, s, q) (read_next_pair tail depth n bits bytes short k b h e)
read-Reading tail bf i vs (at_nibble depth n b bits bytes short e p s q) =
    rw (p, s, q) (read_high_nibble tail depth n bits bytes short b e)

-- Reading as many nodes as there are in `vs`, all of which are held.
read_all-Reading :
    (tail : List ℕ) (bf : BranchFactor) (vs pad : List ℕ) (i : BitInputBuffer)
    → Reading tail bf i (vs ++ pad)
    → (i' : BitInputBuffer) × (read_all (length vs) i ≡ some (vs, i')) × Reading tail bf i' pad
unfolding read_all
read_all-Reading tail bf [] pad i r = (i, refl, r)
read_all-Reading tail bf (v ∷ vs) pad i r =
    let (i1, e, r1) = read-Reading tail bf i (v ∷ (vs ++ pad)) r in
    let (i2, e2, r2) = read_all-Reading tail bf vs pad i1 r1 in (i2, ground (arith, e, e2), r2)

tail_short :
    (k b : ℕ) (vs : List ℕ) → k < 3 → length (drop (suc k) (pairs b) ++ vs) < 4 → length vs < 4
tail_short k b vs h few = omega (arith, length-append (drop (suc k) (pairs b)) vs)

length-nodes_of :
    (bf : BranchFactor) (b : ℕ) (bytes : List ℕ)
    → WholeNodes bf (b ∷ bytes)
    → per_byte bf ≤ length (nodes_of bf (b ∷ bytes))
unfolding nodes_of
length-nodes_of bf2 b bytes w = omega arith
length-nodes_of bf4 b bytes w = omega arith
length-nodes_of bf8 b bytes w = omega arith
length-nodes_of bf32 b (c ∷ d ∷ e ∷ bytes) w = omega arith
length-nodes_of bf32 b (c ∷ d ∷ []) w = absurd w
length-nodes_of bf32 b (c ∷ []) w = absurd w
length-nodes_of bf32 b [] w = absurd w

no_bytes :
    (bf : BranchFactor) (bytes : List ℕ)
    → WholeNodes bf bytes
    → length (nodes_of bf bytes) < per_byte bf
    → bytes ≡ []
no_bytes bf [] w h = refl
no_bytes bf (b ∷ bytes) w h = absurd (omega (arith, length-nodes_of bf b bytes w))

remaining_at_byte :
    (bf : BranchFactor) (depth n : ℕ) (bits : List ℕ)
    → n < 2 ^ 32
    → remaining (state bf depth bits n 0 true) ≡ drop n bits
unfolding remaining
remaining_at_byte bf2 depth n bits short = rw add-zero (rw (low_bits_id n short) refl)
remaining_at_byte bf4 depth n bits short = rw add-zero (rw (low_bits_id n short) refl)
remaining_at_byte bf8 depth n bits short = refl
remaining_at_byte bf32 depth n bits short = refl

remaining_at_pair :
    (k depth n : ℕ) (bits : List ℕ)
    → suc n < 2 ^ 32
    → remaining (state bf2 depth bits n (suc k) true) ≡ drop (suc n) bits
unfolding remaining
remaining_at_pair k depth n bits short = ground (arith, add-one n, low_bits_id (suc n) short)

-- Once less than a byte of nodes is left, what remains is the tail.
remaining-Reading :
    (tail : List ℕ) (bf : BranchFactor) (i : BitInputBuffer) (pad : List ℕ)
    → length pad < per_byte bf
    → Reading tail bf i pad
    → remaining i ≡ tail
unfolding remaining
remaining-Reading tail bf i pad h (at_byte depth n bits bytes short within w e s k) =
    let none_left : bytes ≡ [] = no_bytes bf bytes w (rw k at h) in
    rw s (
      remaining_at_byte bf depth n bits (omega arith)
      ∙ e
      ∙ ap (λ (x : List ℕ). x ++ tail) none_left)
remaining-Reading tail bf i pad h (at_pair depth n k b bits bytes short kk e p s q) =
    let few : length pad < 4 = rw p at h in
    let none_left : bytes ≡ [] =
      no_bytes bf2 bytes tt (tail_short k b (nodes_of bf2 bytes) kk (rw q at few)) in
    rw s (
      remaining_at_pair k depth n bits (omega (arith, (drop-cons n bits e).0))
      ∙ ((drop-cons n bits e).2 ∙ ap (λ (x : List ℕ). x ++ tail) none_left))
remaining-Reading tail bf i pad h (at_nibble depth n b bits bytes short e p s q) =
    let few : length pad < 2 = rw p at h in
    let few' : length (b / 16 ∷ nodes_of bf4 bytes) < 2 = rw q at few in
    let none_left : bytes ≡ [] = no_bytes bf4 bytes tt (omega arith) in
    rw s (
      rw (add-one, low_bits_id (suc n) (omega (arith, (drop-cons n bits e).0)))
        ((drop-cons n bits e).2 ∙ ap (λ (x : List ℕ). x ++ tail) none_left))

-- Reading back as many nodes as `vs` from a string that holds them behind its first byte: the reads
-- give `vs`, and leave what follows the last byte that the nodes share.
pub read_all-open_buffer :
    (h : ℕ) (bf : BranchFactor) (body tail vs pad : List ℕ)
    → decode_branch_factor (h ∷ []) ≡ bf
    → WholeNodes bf body
    → vs ++ pad ≡ nodes_of bf body
    → length pad < per_byte bf
    → length (h ∷ (body ++ tail)) < 2 ^ 32
    → (i : BitInputBuffer) × (read_all (length vs) (open_buffer (h ∷ (body ++ tail)))
        ≡ some (vs, i))
      × (remaining i ≡ tail)
unfolding open_buffer decode_branch_factor decode_depth
read_all-open_buffer h bf body tail vs pad e w k few short =
    let (i, r, left) = read_all-Reading tail bf vs pad (open_buffer (h ∷ (body ++ tail))) (
      at_byte (decode_depth (h ∷ [])) 1 (h ∷ (body ++ tail)) body short (omega arith) w refl (rw e)
        k) in
    (i, r, remaining-Reading tail bf i pad few left)
