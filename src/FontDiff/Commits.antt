-- ===== src/FontDiff/Commits.antt =====
-- The error of the commits of a range.
use ift_encoder.Prelude.{
  ◌+◌, ◌<◌, ◌≡◌, ◌↔◌, inl, inr, refl, ap, sym, ◌∙◌, Bool, true, false, length, Bool-cases,
  Option-cases, if-true, if-false, arith,
}
use ift_encoder.FontDiff.Streams.{Streams}
use ift_encoder.FontDiff.Range.{
  StatusOr, err, out_of_bounds, TableRange, is_out_of_bounds, commit_new, commit_existing, pending,
}
use ift_encoder.FontDiff.Driver.{commit}

module _ (streams : Streams) where
  out_of_bounds_iff :
      (range : TableRange streams)
      → (is_out_of_bounds streams range ≡ true)
        ↔ (length range.derived < range.derived_offset + range.derived_length)
  unfolding is_out_of_bounds
  out_of_bounds_iff range = ground arith

  abbrev is_bounds_error : StatusOr (TableRange streams) → Bool
  is_bounds_error (err out_of_bounds) = true
  is_bounds_error _ = false

  in_bounds-new :
      (range : TableRange streams)
      → is_out_of_bounds streams range ≡ false
      → is_bounds_error (commit_new streams range) ≡ false
  unfolding commit_new
  in_bounds-new range e =
      elim (Option-cases (streams.insert_compressed range.out (pending streams range))) [
        | inl n ↦ rw (e, n, commit_new) refl
        | inr (out, n) ↦ rw (e, n, commit_new) refl
      ]

  -- A commit, of new or of existing data, fails with the error of a range that is out of bounds
  -- exactly if what is to be committed ends behind the table, for numbers that do not wrap.
  pub commit-out_of_bounds :
      (new : Bool) (range : TableRange streams)
      → (commit streams new range ≡ err out_of_bounds)
        ↔ (length range.derived < range.derived_offset + range.derived_length)
  unfolding commit commit_new commit_existing
  commit-out_of_bounds true range = elim (Bool-cases (is_out_of_bounds streams range)) [
    | inl e ↦ ((λ h. (out_of_bounds_iff range).0 e), (λ l. if-true _ _ e))
    | inr e ↦ (
      (λ h. absurd (ground (arith, sym (ap is_bounds_error h) ∙ in_bounds-new range e))),
      (λ l. absurd (ground (arith, sym e ∙ (out_of_bounds_iff range).1 l))),
    )
  ]
  commit-out_of_bounds false range = elim (Bool-cases (is_out_of_bounds streams range)) [
    | inl e ↦ ((λ h. (out_of_bounds_iff range).0 e), (λ l. if-true _ _ e))
    | inr e ↦ (
      (λ h.
          absurd
            (ground (arith, sym (ap is_bounds_error h) ∙ ap is_bounds_error (if-false _ _ e)))),
      (λ l. absurd (ground (arith, sym e ∙ (out_of_bounds_iff range).1 l))),
    )
  ]
