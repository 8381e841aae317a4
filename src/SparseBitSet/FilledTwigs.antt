-- ===== src/SparseBitSet/FilledTwigs.antt =====
-- ift/common/sparse_bit_set.cc: the twigs that FindFilledTwigs finds, and the values they cover.
use mathlib.Core.Path.{subst}
use Prim.Native.Nat.{bit_and}
use ift_encoder.Prelude.{
  ℕ, zero, suc, ◌+◌, ◌-◌, ◌*◌, ◌%◌, ◌^◌, ◌≤◌, ◌<◌, ◌≡◌, refl, sym, ◌∙◌, Bool, true, List, [], ◌∷◌,
  ◌⊎◌, inl, inr, ◌==◌, if◌then◌else◌, All, arith, Bool-cases, ==_iff,
}
use ift_encoder.Prelude.Bits.{shr}
use ift_encoder.BitBuffer.BranchFactor.{
  BranchFactor, bf2, bf4, bf8, bf32, twig_size, twig_size_log2,
}
use ift_encoder.IntSet.Defs.{mem, Ascending}
use ift_encoder.SparseBitSet.Twigs.{u32, twig_size_bit_mask, scan_twigs, find_filled_twigs}
use ift_encoder.SparseBitSet.Masks.{twig_mask}

-- Every value of the twig satisfies `Has`.
abbrev pub Filled : (ℕ → Bool) → BranchFactor → ℕ → Type 0
Filled has bf twig = (i : ℕ) → i < twig_size bf → has (twig * twig_size bf + i) ≡ true

-- The values of the run that ends at `prev_cp`.
abbrev Run : (ℕ → Bool) → ℕ → ℕ → Type 0
Run has prev_cp seq_len = (k : ℕ) → k < seq_len → k ≤ prev_cp → has (prev_cp - k) ≡ true

Run-Filled :
    (has : ℕ → Bool) (bf : BranchFactor) (cp : ℕ)
    → Run has cp (twig_size bf)
    → cp % twig_size bf ≡ twig_size bf - 1
    → Filled has bf (shr cp (twig_size_log2 bf))
Run-Filled has bf2 cp run last i small =
    subst (λ v. has v ≡ true) (omega arith) (run (3 - i) (omega arith) (omega arith))
Run-Filled has bf4 cp run last i small =
    subst (λ v. has v ≡ true) (omega arith) (run (15 - i) (omega arith) (omega arith))
Run-Filled has bf8 cp run last i small =
    subst (λ v. has v ≡ true) (omega arith) (run (63 - i) (omega arith) (omega arith))
Run-Filled has bf32 cp run last i small =
    subst (λ v. has v ≡ true) (omega arith) (run (1023 - i) (omega arith) (omega arith))

-- The run goes on, or starts at the value.
next_run : ℕ → ℕ → ℕ → ℕ
next_run prev_cp seq_len cp = if cp == u32 (prev_cp + 1) then seq_len + 1 else 1

module _ (has : ℕ → Bool) where
  next_run-Run :
      (prev_cp seq_len cp : ℕ)
      → Run has prev_cp seq_len
      → (seq_len ≡ 0) ⊎ (prev_cp < cp)
      → cp < 2 ^ 32
      → has cp ≡ true
      → Run has cp (next_run prev_cp seq_len cp)
  unfolding next_run
  next_run-Run prev_cp seq_len cp run order small here zero below within =
      subst (λ v. has v ≡ true) (omega arith) here
  next_run-Run prev_cp seq_len cp run order small here (suc k) below within =
      elim (Bool-cases (cp == u32 (prev_cp + 1))) [
        | inl e ↦
            let same : cp ≡ u32 (prev_cp + 1) = (==_iff cp (u32 (prev_cp + 1))).0 e in
            let shorter : k < seq_len = omega (arith, rw e at below) in
            let before : prev_cp < cp = (elim order [
              | inl none_ ↦ absurd (omega arith)
              | inr less ↦ less
            ]) in
            subst (λ v. has v ≡ true) (omega arith) (run k shorter (omega arith))
        | inr e ↦ absurd (omega (arith, rw e at below))
      ]

  scan_twigs-Filled :
      (bf : BranchFactor) (prev_cp seq_len lo : ℕ) (cps : List ℕ)
      → Run has prev_cp seq_len
      → (seq_len ≡ 0) ⊎ (prev_cp < lo)
      → Ascending lo cps
      → All (λ cp. cp < 2 ^ 32) cps
      → All (λ cp. has cp ≡ true) cps
      → All (Filled has bf) (scan_twigs bf prev_cp seq_len cps)
  unfolding scan_twigs next_run
  scan_twigs-Filled bf prev_cp seq_len lo [] run order up low all = tt
  scan_twigs-Filled bf prev_cp seq_len lo (cp ∷ cps) run order up low all =
      let run' =
        next_run-Run prev_cp seq_len cp run
          (elim order [ inl none_ ↦ inl none_ | inr less ↦ inr (omega (arith, up.0)) ]) low.0
          all.0 in
      let after =
        scan_twigs-Filled bf cp 0 (suc cp) cps (λ k less. absurd (omega arith)) (inl refl) up.1
          low.1 all.1 in
      elim (Bool-cases (bit_and cp (twig_size_bit_mask bf) == twig_size_bit_mask bf)) [
        | inr e ↦
            rw (e, scan_twigs)
              (scan_twigs-Filled bf cp _ (suc cp) cps run' (inr (omega arith)) up.1 low.1 all.1)
        | inl e ↦ elim (Bool-cases (next_run prev_cp seq_len cp == twig_size bf)) [
          | inr f ↦ rw (e, f, scan_twigs) after
          | inl f ↦
              rw (e, f, scan_twigs)
                (
                  Run-Filled has bf cp (subst (Run has cp) ((==_iff _ (twig_size bf)).0 f) run')
                      (sym (twig_mask bf cp) ∙ (==_iff _ (twig_size_bit_mask bf)).0 e),
                  after,
                )
        ]
      ]

All-mem :
    (has : ℕ → Bool) (xs : List ℕ)
    → ((v : ℕ) → mem v xs ≡ true → has v ≡ true)
    → All (λ v. has v ≡ true) xs
All-mem has [] h = tt
All-mem has (x ∷ xs) h = (h x (ground arith), All-mem has xs (λ v m. h v (ground arith)))

-- For the values of a set, which are in ascending order and of 32 bits, each twig that FindFilledTwigs
-- finds is completely filled: all the values that it covers are in the set.
pub find_filled_twigs-Filled :
    (codepoints : List ℕ) (bf : BranchFactor)
    → Ascending 0 codepoints
    → All (λ cp. cp < 2 ^ 32) codepoints
    → All (Filled (λ v. mem v codepoints) bf) (find_filled_twigs codepoints bf)
unfolding find_filled_twigs
find_filled_twigs-Filled codepoints bf up low =
    scan_twigs-Filled (λ v. mem v codepoints) bf (2 ^ 32 - 2) 0 0 codepoints
      (λ k less. absurd (omega arith)) (inl refl) up low
      (All-mem (λ v. mem v codepoints) codepoints (λ v m. m))
