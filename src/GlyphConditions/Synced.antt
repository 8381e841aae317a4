-- ===== src/GlyphConditions/Synced.antt =====
-- The index and the conditions of the glyphs in step, and the operations that keep them so.
use ift_encoder.Prelude.{
  ℕ, ◌<◌, ◌≡◌, ◌≢◌, refl, ap, sym, ◌∙◌, Bool, true, false, not, ◌&&◌, ◌||◌, List, [], ◌∷◌, ◌==◌,
  length, get_or, Bool-cases, if-true, inl, inr, ==_iff, get_or-set_same, get_or-set_other,
  length-set, arith, All,
}
use ift_encoder.IntSet.Defs.{HbSet, mem}
use ift_encoder.Condition.Defs.{ActivationCondition, make_true, singleton}
use ift_encoder.GlyphConditions.Defs.{
  GlyphConditionSet, triggering_segments, condition_for, put_condition, put_glyphs, insert_glyph,
  erase_glyph, erase_from, insert_into, set_condition, remove_segments, remove_segments_from_glyph,
  remove_from_glyphs,
}
use ift_encoder.GlyphConditions.Triggers.{remove_segments-subset, has-removed}

both_erased : (a b c d : Bool) → ((a && not (b && d)) && not (c && d)) ≡ (a && not ((b || c) && d))
both_erased a b c d = ground arith

both_inserted : (a b c d : Bool) → ((a || (b && d)) || (c && d)) ≡ (a || ((b || c) && d))
both_inserted a b c d = ground arith

replaced : (a b c d : Bool) → a ≡ b → d ≡ true → ((a && not (b && d)) || (c && d)) ≡ c
replaced a b c d same e = ground (arith, same, e)

unmoved : (a b c d : Bool) → d ≡ false → ((a && not (b && d)) || (c && d)) ≡ a
unmoved a b c d e = ground (arith, e)

pub lessened :
    (a b r n d : Bool)
    → a ≡ b
    → r ≡ (b && not n)
    → (n ≡ true → b ≡ true)
    → d ≡ true
    → (a && not (r && d)) ≡ n
lessened a b r n d same removed subset e = ground (arith, same, removed, subset, e)

pub untouched : (a r d : Bool) → d ≡ false → (a && not (r && d)) ≡ a
untouched a r d e = ground (arith, e)

module _ (hb : HbSet) where
  open hb use {
    Set, empty, has, add, union, subtract, values, has_values, has_empty, has_add, has_union,
    has_subtract,
  }

  -- The glyph is in the index under the segment.
  abbrev pub indexed : GlyphConditionSet hb → ℕ → ℕ → Bool
  indexed st s g = has (st.segment_to_gid_conditions s) g

  -- The segment is in the condition of the glyph.
  abbrev pub triggers : GlyphConditionSet hb → ℕ → ℕ → Bool
  triggers st s g = has (triggering_segments hb (condition_for hb st g)) s

  -- The index has a glyph under a segment exactly if its condition has the segment.
  abbrev pub Synced : GlyphConditionSet hb → Type 0
  Synced st = (s g : ℕ) → indexed st s g ≡ triggers st s g

  abbrev pub count : GlyphConditionSet hb → ℕ
  count st = length st.gid_conditions

  pub erase_from-conditions :
      (st : GlyphConditionSet hb) (gid : ℕ) (ss : List ℕ)
      → (erase_from hb st gid ss).gid_conditions ≡ st.gid_conditions
  unfolding erase_from erase_glyph put_glyphs
  erase_from-conditions st gid [] = refl
  erase_from-conditions st gid (s ∷ ss) = erase_from-conditions (erase_glyph hb st gid s) gid ss

  pub insert_into-conditions :
      (st : GlyphConditionSet hb) (gid : ℕ) (ss : List ℕ)
      → (insert_into hb st gid ss).gid_conditions ≡ st.gid_conditions
  unfolding insert_into insert_glyph put_glyphs
  insert_into-conditions st gid [] = refl
  insert_into-conditions st gid (s ∷ ss) = insert_into-conditions (insert_glyph hb st gid s) gid ss

  pub gone :
      (c d : Set) (gid g : ℕ)
      → has c g ≡ has d g
      → has (subtract c (singleton hb gid)) g ≡ (has d g && not (g == gid))
  unfolding singleton
  gone c d gid g e =
      has_subtract c (add empty gid) g ∙ rw (has_add empty gid g, has_empty g, e) (ground arith)

  joined : (c d : Set) (gid g : ℕ) → has c g ≡ has d g → has (add c gid) g ≡ (has d g || (g == gid))
  joined c d gid g e = has_add c gid g ∙ rw e (ground arith)

  indexed-erase_glyph :
      (st : GlyphConditionSet hb) (gid t s g : ℕ)
      → indexed (erase_glyph hb st gid t) s g ≡ (indexed st s g && not (s == t && g == gid))
  unfolding erase_glyph put_glyphs singleton
  indexed-erase_glyph st gid t s g = elim (Bool-cases (s == t)) [
    | inl e ↦
        ap (λ c. has c g)
          (if-true (subtract (st.segment_to_gid_conditions t) (singleton hb gid))
            (st.segment_to_gid_conditions s) e)
        ∙ gone (st.segment_to_gid_conditions t) (st.segment_to_gid_conditions s) gid g
            (ap (λ k. indexed st k g) (sym ((==_iff s t).0 e)))
        ∙ rw e refl
    | inr e ↦ rw e (ground arith)
  ]

  indexed-insert_glyph :
      (st : GlyphConditionSet hb) (gid t s g : ℕ)
      → indexed (insert_glyph hb st gid t) s g ≡ (indexed st s g || (s == t && g == gid))
  unfolding insert_glyph put_glyphs
  indexed-insert_glyph st gid t s g = elim (Bool-cases (s == t)) [
    | inl e ↦
        ap (λ c. has c g)
          (if-true (add (st.segment_to_gid_conditions t) gid) (st.segment_to_gid_conditions s) e)
        ∙ joined (st.segment_to_gid_conditions t) (st.segment_to_gid_conditions s) gid g
            (ap (λ k. indexed st k g) (sym ((==_iff s t).0 e)))
        ∙ rw e refl
    | inr e ↦ rw e (ground arith)
  ]

  pub indexed-erase_from :
      (st : GlyphConditionSet hb) (gid : ℕ) (ss : List ℕ) (s g : ℕ)
      → indexed (erase_from hb st gid ss) s g ≡ (indexed st s g && not (mem s ss && g == gid))
  unfolding erase_from
  indexed-erase_from st gid [] s g = ground arith
  indexed-erase_from st gid (t ∷ ss) s g =
      indexed-erase_from (erase_glyph hb st gid t) gid ss s g
      ∙ rw (indexed-erase_glyph st gid t s g)
          (both_erased (indexed st s g) (s == t) (mem s ss) (g == gid))

  indexed-insert_into :
      (st : GlyphConditionSet hb) (gid : ℕ) (ss : List ℕ) (s g : ℕ)
      → indexed (insert_into hb st gid ss) s g ≡ (indexed st s g || (mem s ss && g == gid))
  unfolding insert_into
  indexed-insert_into st gid [] s g = ground arith
  indexed-insert_into st gid (t ∷ ss) s g =
      indexed-insert_into (insert_glyph hb st gid t) gid ss s g
      ∙ rw (indexed-insert_glyph st gid t s g)
          (both_inserted (indexed st s g) (s == t) (mem s ss) (g == gid))

  pub triggers-put_same :
      (st : GlyphConditionSet hb) (gid : ℕ) (c : ActivationCondition hb) (s : ℕ)
      → gid < count st
      → triggers (put_condition hb st gid c) s gid ≡ has (triggering_segments hb c) s
  unfolding put_condition condition_for
  triggers-put_same st gid c s low =
      ap (λ d. has (triggering_segments hb d) s)
        (get_or-set_same st.gid_conditions gid c (make_true hb 0) low)

  pub triggers-put_other :
      (st : GlyphConditionSet hb) (gid g : ℕ) (c : ActivationCondition hb) (s : ℕ)
      → gid ≢ g
      → triggers (put_condition hb st gid c) s g ≡ triggers st s g
  unfolding put_condition condition_for
  triggers-put_other st gid g c s other =
      ap (λ d. has (triggering_segments hb d) s)
        (get_or-set_other st.gid_conditions gid g c (make_true hb 0) other)

  -- The conditions alone decide what triggers a glyph.
  pub triggers_of_conditions :
      (st st' : GlyphConditionSet hb) (s g : ℕ)
      → st.gid_conditions ≡ st'.gid_conditions
      → triggers st s g ≡ triggers st' s g
  unfolding condition_for
  triggers_of_conditions st st' s g e =
      ap (λ cs. has (triggering_segments hb (get_or cs g (make_true hb 0))) s) e

  pub indexed-put_condition :
      (st : GlyphConditionSet hb) (gid : ℕ) (c : ActivationCondition hb) (s g : ℕ)
      → indexed (put_condition hb st gid c) s g ≡ indexed st s g
  unfolding put_condition
  indexed-put_condition st gid c s g = refl

  -- SetCondition, for a glyph of the font, keeps the index and the conditions in step.
  pub set_condition-Synced :
      (st : GlyphConditionSet hb) (gid : ℕ) (c : ActivationCondition hb)
      → gid < count st
      → Synced st
      → Synced (set_condition hb st gid c)
  unfolding set_condition
  set_condition-Synced st gid c low synced s g =
      let old = triggering_segments hb (condition_for hb st gid) in
      let new = triggering_segments hb c in
      let erased = erase_from hb st gid (values old) in
      let put = put_condition hb erased gid c in
      let index : indexed (set_condition hb st gid c) s g
          ≡ ((triggers st s g && not (has old s && g == gid)) || (has new s && g == gid)) =
        indexed-insert_into put gid (values new) s g
        ∙ rw
            (
              indexed-put_condition erased gid c s g,
              indexed-erase_from st gid (values old) s g,
              sym (has_values old s),
              sym (has_values new s),
              synced s g,
            )
            refl in
      let conditions : triggers (set_condition hb st gid c) s g ≡ triggers put s g =
        triggers_of_conditions (insert_into hb put gid (values new)) put s g
          (insert_into-conditions put gid (values new)) in
      let before : triggers erased s g ≡ triggers st s g =
        triggers_of_conditions erased st s g (erase_from-conditions st gid (values old)) in
      elim (Bool-cases (g == gid)) [
        | inl e ↦
            let same = (==_iff g gid).0 e in
            let own : triggers st s g ≡ has old s = ap (triggers st s) same in
            let kept : gid < count erased = rw (erase_from-conditions st gid (values old)) low in
            index
            ∙ replaced (triggers st s g) (has old s) (has new s) (g == gid) own e
            ∙ sym (conditions ∙ ap (triggers put s) same ∙ triggers-put_same erased gid c s kept)
        | inr e ↦
            index
            ∙ unmoved (triggers st s g) (has old s) (has new s) (g == gid) e
            ∙ sym (
                conditions
                ∙ triggers-put_other erased gid g c s (λ same. ground (arith, e))
                ∙ before)
      ]

  -- RemoveSegments for one glyph of the font.
  remove_segments_from_glyph-Synced :
      (st : GlyphConditionSet hb) (gid : ℕ) (segments : Set)
      → gid < count st
      → Synced st
      → Synced (remove_segments_from_glyph hb st gid segments)
        × (count (remove_segments_from_glyph hb st gid segments) ≡ count st)
  unfolding remove_segments_from_glyph
  remove_segments_from_glyph-Synced st gid segments low synced =
      let c = condition_for hb st gid in
      let c' = (remove_segments hb c segments).0 in
      let removed = (remove_segments hb c segments).1 in
      let put = put_condition hb st gid c' in
      (
        (λ s g.
            let index : indexed (erase_from hb put gid (values removed)) s g
                ≡ (triggers st s g && not (has removed s && g == gid)) =
              indexed-erase_from put gid (values removed) s g
              ∙ rw (indexed-put_condition st gid c' s g, sym (has_values removed s), synced s g)
                  refl in
            let conditions : triggers (erase_from hb put gid (values removed)) s g
                ≡ triggers put s g =
              triggers_of_conditions (erase_from hb put gid (values removed)) put s g
                (erase_from-conditions put gid (values removed)) in
            elim (Bool-cases (g == gid)) [
              | inl e ↦
                  let same = (==_iff g gid).0 e in
                  index
                  ∙ lessened (triggers st s g) (has (triggering_segments hb c) s) (has removed s)
                      (has (triggering_segments hb c') s) (g == gid) (ap (triggers st s) same)
                      (has-removed hb c segments s) (remove_segments-subset hb c segments s) e
                  ∙ sym (conditions ∙ ap (triggers put s) same ∙ triggers-put_same st gid c' s low)
              | inr e ↦
                  index
                  ∙ untouched (triggers st s g) (has removed s) (g == gid) e
                  ∙ sym (conditions ∙ triggers-put_other st gid g c' s (λ same. ground (arith, e)))
            ]),
        ap length (erase_from-conditions put gid (values removed))
            ∙ length-set st.gid_conditions gid c',
      )

  pub remove_from_glyphs-Synced :
      (st : GlyphConditionSet hb) (gids : List ℕ) (segments : Set)
      → All (λ g. g < count st) gids
      → Synced st
      → Synced (remove_from_glyphs hb st gids segments)
        × (count (remove_from_glyphs hb st gids segments) ≡ count st)
  unfolding remove_from_glyphs
  remove_from_glyphs-Synced st [] segments low synced = (synced, refl)
  remove_from_glyphs-Synced st (gid ∷ gids) segments low synced =
      let (synced', same) = remove_segments_from_glyph-Synced st gid segments low.0 synced in
      let (synced'', same') =
        remove_from_glyphs-Synced (remove_segments_from_glyph hb st gid segments) gids segments
          (rw same low.1) synced' in
      (synced'', same' ∙ same)
