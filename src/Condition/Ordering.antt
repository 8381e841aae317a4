-- ===== src/Condition/Ordering.antt =====
-- ActivationCondition::operator<, and a list of numbers for a condition, against it.
use ift_encoder.Prelude.{
  ℕ, suc, ◌≡◌, refl, ap, sym, ◌∙◌, Bool, true, false, not, List, [], ◌∷◌, ◌++◌, Option, none, some,
  ◌==◌, ltb, if◌then◌else◌, length, Bool-cases, if-true, if-false, append_assoc, inl, inr, ==_iff,
  arith,
}
use ift_encoder.IntSet.Defs.{HbSet, less}
use ift_encoder.Condition.Defs.{
  ActivationCondition, PatchEncoding, default_encoding, table_keyed_full, table_keyed_partial,
  glyph_keyed,
}

-- The inner loop: the first values that differ decide.
unfoldable pub values_order : List ℕ → List ℕ → Option Bool
values_order (x ∷ xs) (y ∷ ys) =
    let rest = values_order xs ys in if x == y then rest else some (ltb x y)
values_order _ _ = none

-- The equality of vectors.
unfoldable pub same_list : List ℕ → List ℕ → Bool
same_list [] [] = true
same_list (x ∷ xs) (y ∷ ys) = if x == y then same_list xs ys else false
same_list _ _ = false

-- The value of an enumerator.
abbrev pub encoding_value : PatchEncoding → ℕ
encoding_value default_encoding = 0
encoding_value table_keyed_full = 1
encoding_value table_keyed_partial = 2
encoding_value glyph_keyed = 3

abbrev pub differ : Bool → Bool → Bool
differ true b = not b
differ false b = b

abbrev pub decided : Option Bool → Bool → Bool
decided none rest = rest
decided (some r) rest = r

-- The numbers of a vector, each increased by 1, and a 0 behind them.
abbrev pub ended : List ℕ → List ℕ
ended [] = 0 ∷ []
ended (x ∷ xs) = suc x ∷ ended xs

abbrev pub flag : Bool → ℕ
flag true = 1
flag false = 0

module _ (hb : HbSet) where
  open hb use {Set, values, population, population_lem}

  -- The outer loop, over the groups of two conditions with as many groups.
  unfoldable pub groups_order : List Set → List Set → Option Bool
  unfolding values_order
  groups_order (a ∷ as') (b ∷ bs) =
      let rest = groups_order as' bs in
      if population a == population b
      then elim (values_order (values a) (values b)) [ none ↦ rest | some r ↦ some r ]
      else some (ltb (population a) (population b))
  groups_order _ _ = none

  -- The vector of activated patches.
  abbrev pub patches : ActivationCondition hb → List ℕ
  patches c = c.activated ∷ c.prefetches

  -- The comparisons behind the loops.
  unfoldable pub fields_less : ActivationCondition hb → ActivationCondition hb → Bool
  unfolding same_list less
  fields_less a b =
      if not (same_list (patches a) (patches b))
      then less (patches a) (patches b)
      else if differ a.is_exclusive b.is_exclusive
      then a.is_exclusive
      else if differ a.is_fallback b.is_fallback
      then not a.is_fallback
      else ltb (encoding_value a.encoding) (encoding_value b.encoding)

  -- ActivationCondition::operator<
  unfoldable pub condition_less : ActivationCondition hb → ActivationCondition hb → Bool
  unfolding groups_order fields_less
  condition_less a b =
      if not (length a.conditions == length b.conditions)
      then ltb (length a.conditions) (length b.conditions)
      else decided (groups_order a.conditions b.conditions) (fields_less a b)

  -- Each group behind its size.
  abbrev pub groups_key : List Set → List ℕ
  groups_key [] = []
  groups_key (c ∷ cs) = (population c ∷ values c) ++ groups_key cs

  abbrev pub key : ActivationCondition hb → List ℕ
  key c =
      length c.conditions
      ∷ (groups_key c.conditions
          ++ (ended (patches c)
              ++ (flag (not c.is_exclusive) ∷ flag c.is_fallback ∷ encoding_value c.encoding ∷ [])))

decided_twice :
    (v g : Option Bool) (rest : Bool)
    → decided v (decided g rest) ≡ decided (elim v [ none ↦ g | some r ↦ some r ]) rest
decided_twice none g rest = refl
decided_twice (some r) g rest = refl

less-values :
    (xs ys R S : List ℕ)
    → length xs ≡ length ys
    → less (xs ++ R) (ys ++ S) ≡ decided (values_order xs ys) (less R S)
unfolding less values_order
less-values [] [] R S same = refl
less-values [] (y ∷ ys) R S same = absurd (ground (arith, same))
less-values (x ∷ xs) [] R S same = absurd (ground (arith, same))
less-values (x ∷ xs) (y ∷ ys) R S same = elim (Bool-cases (x == y)) [
  | inl e ↦
      let rest = less-values xs ys R S (ground (arith, same)) in
      let up : ltb x y ≡ false = ground (arith, e) in
      let down : ltb y x ≡ false = ground (arith, e) in rw (e, up, down, less, values_order) rest
  | inr e ↦ ground (arith, e)
]

less-head :
    (x y : ℕ) (xs ys : List ℕ) → less (x ∷ xs) (y ∷ ys) ≡ (if x == y then less xs ys else ltb x y)
unfolding less
less-head x y xs ys = ground arith

less-ended :
    (xs ys R S : List ℕ)
    → less (ended xs ++ R) (ended ys ++ S) ≡ (if same_list xs ys then less R S else less xs ys)
unfolding same_list less
less-ended [] [] R S = refl
less-ended [] (y ∷ ys) R S = ground arith
less-ended (x ∷ xs) [] R S = ground arith
less-ended (x ∷ xs) (y ∷ ys) R S = elim (Bool-cases (x == y)) [
  | inl e ↦
      let up : (suc x == suc y) ≡ true = ground (arith, e) in
      less-head (suc x) (suc y) (ended xs ++ R) (ended ys ++ S)
      ∙ if-true _ _ up
      ∙ less-ended xs ys R S
      ∙ rw (e, same_list)
          (ap (λ t. if same_list xs ys then less R S else t)
            (sym (less-head x y xs ys ∙ if-true _ _ e)))
  | inr e ↦
      let up : (suc x == suc y) ≡ false = ground (arith, e) in
      let further : ltb (suc x) (suc y) ≡ ltb x y = ground arith in
      less-head (suc x) (suc y) (ended xs ++ R) (ended ys ++ S)
      ∙ if-false _ _ up
      ∙ further
      ∙ rw (e, same_list) (sym (less-head x y xs ys ∙ if-false _ _ e))
]

flags_of :
    (e e' f f' : Bool) (n n' : ℕ)
    → less (flag (not e) ∷ flag f ∷ n ∷ []) (flag (not e') ∷ flag f' ∷ n' ∷ [])
      ≡ (if differ e e' then e else if differ f f' then not f else ltb n n')
unfolding less
flags_of e e' f f' n n' = ground arith

module _ (hb : HbSet) where
  open hb use {Set, values, population, population_lem}

  less-groups_key :
      (cs ds : List Set) (R S : List ℕ)
      → length cs ≡ length ds
      → less (groups_key hb cs ++ R) (groups_key hb ds ++ S)
        ≡ decided (groups_order hb cs ds) (less R S)
  unfolding groups_order
  less-groups_key [] [] R S same = refl
  less-groups_key [] (d ∷ ds) R S same = absurd (ground (arith, same))
  less-groups_key (c ∷ cs) [] R S same = absurd (ground (arith, same))
  less-groups_key (c ∷ cs) (d ∷ ds) R S same = elim (Bool-cases (population c == population d)) [
    | inl e ↦
        let size : length (values c) ≡ length (values d) =
          sym (population_lem c) ∙ (==_iff (population c) (population d)).0 e ∙ population_lem d in
        less-head (population c) (population d) _ _
        ∙ if-true _ _ e
        ∙ rw
            (
              append_assoc (values c) (groups_key hb cs) R,
              append_assoc (values d) (groups_key hb ds) S,
            )
            (less-values (values c) (values d) (groups_key hb cs ++ R) (groups_key hb ds ++ S) size)
        ∙ ap (decided (values_order (values c) (values d)))
            (less-groups_key cs ds R S (ground (arith, same)))
        ∙ decided_twice (values_order (values c) (values d)) (groups_order hb cs ds) (less R S)
        ∙ ap (λ o. decided o (less R S)) (sym (if-true _ _ e))
    | inr e ↦ less-head (population c) (population d) _ _ ∙ rw (e, groups_order) refl
  ]

  abbrev fields : ActivationCondition hb → List ℕ
  fields c = flag (not c.is_exclusive) ∷ flag c.is_fallback ∷ encoding_value c.encoding ∷ []

  less-flags :
      (a b : ActivationCondition hb)
      → less (fields a) (fields b) ≡ (
          if differ a.is_exclusive b.is_exclusive
          then a.is_exclusive
          else if differ a.is_fallback b.is_fallback
          then not a.is_fallback
          else ltb (encoding_value a.encoding) (encoding_value b.encoding))
  unfolding less
  less-flags a b =
      flags_of a.is_exclusive b.is_exclusive a.is_fallback b.is_fallback (encoding_value a.encoding)
        (encoding_value b.encoding)

  less-fields :
      (a b : ActivationCondition hb)
      → less (ended (patches hb a) ++ fields a) (ended (patches hb b) ++ fields b)
        ≡ fields_less hb a b
  unfolding fields_less
  less-fields a b =
      less-ended (patches hb a) (patches hb b) (fields a) (fields b)
      ∙ elim (Bool-cases (same_list (patches hb a) (patches hb b))) [
        | inl e ↦ if-true _ _ e ∙ less-flags a b ∙ sym (if-false _ _ (ap not e))
        | inr e ↦ if-false _ _ e ∙ sym (if-true _ _ (ap not e))
      ]

  -- The order of conditions is the lexicographic order of the lists of their numbers: the number of
  -- groups, the size and the values of each group, the patches, and the flags and the encoding.
  pub condition_less-key :
      (a b : ActivationCondition hb) → condition_less hb a b ≡ less (key hb a) (key hb b)
  unfolding condition_less
  condition_less-key a b =
      let front = groups_key hb a.conditions ++ (ended (patches hb a) ++ fields a) in
      let back = groups_key hb b.conditions ++ (ended (patches hb b) ++ fields b) in
      let heads = less-head (length a.conditions) (length b.conditions) front back in
      elim (Bool-cases (length a.conditions == length b.conditions)) [
        | inr e ↦ if-true _ _ (ap not e) ∙ sym (heads ∙ if-false _ _ e)
        | inl e ↦
            if-false _ _ (ap not e)
            ∙ sym (
                heads
                ∙ if-true (less front back) (ltb (length a.conditions) (length b.conditions)) e
                ∙ less-groups_key a.conditions b.conditions (ended (patches hb a) ++ fields a)
                    (ended (patches hb b) ++ fields b)
                    ((==_iff (length a.conditions) (length b.conditions)).0 e)
                ∙ ap (decided (groups_order hb a.conditions b.conditions)) (less-fields a b))
      ]
