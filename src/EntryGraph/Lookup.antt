-- ===== src/EntryGraph/Lookup.antt =====
-- The maps with conditions as keys.
use ift_encoder.Prelude.{
  In, ◌≡◌, refl, true, false, List, [], ◌∷◌, Option, some, All, arith, inl, inr, Bool-cases,
}
use ift_encoder.IntSet.Defs.{HbSet}
use ift_encoder.Condition.Defs.{ActivationCondition}
use ift_encoder.EntryGraph.Coverage.{Containers}
use ift_encoder.EntryGraph.Nodes.{normalize, condition_equal, find_key, find_condition}
use ift_encoder.EntryGraph.Mapped.{condition_equal_refl}
use ift_encoder.EntryGraph.Equal.{condition_equal_symm}

module _ (hb : HbSet) (box : Containers) where
  -- The normalized conditions differ.
  abbrev pub Differs : ActivationCondition hb → ActivationCondition hb → Type 0
  Differs c d = condition_equal hb box (normalize hb box c) (normalize hb box d) ≡ false

  abbrev pub Distinct : List (ActivationCondition hb) → Type 0
  Distinct [] = Unit
  Distinct (c ∷ cs) = All (Differs c) cs × Distinct cs

  pub Differs-sym : (c d : ActivationCondition hb) → Differs c d → Differs d c
  Differs-sym c d h =
      elim (Bool-cases (condition_equal hb box (normalize hb box d) (normalize hb box c))) [
        | inl e ↦ cc (condition_equal_symm hb box (normalize hb box d) (normalize hb box c) e)
        | inr e ↦ e
      ]

  -- The value of a normalized condition in one of the maps.
  abbrev pub found :
      {V : Type 0} → ActivationCondition hb → List (ActivationCondition hb × V) → Option V
  found c entries = find_condition hb box (normalize hb box c) entries

  pub found-own :
      {V : Type 0} (c : ActivationCondition hb) (v : V)
      (entries : List (ActivationCondition hb × V))
      → found c ((normalize hb box c, v) ∷ entries) ≡ some v
  unfolding find_condition find_key
  found-own c v entries = rw (condition_equal_refl hb box (normalize hb box c)) refl

  pub found-other :
      {V : Type 0} (c d : ActivationCondition hb) (v : V)
      → (entries : List (ActivationCondition hb × V)) → Differs c d
      → found c ((normalize hb box d, v) ∷ entries) ≡ found c entries
  unfolding find_condition find_key
  found-other c d v entries h = rw h refl

  -- An equal key is found.
  pub found-In :
      {V : Type 0} (n c : ActivationCondition hb) (v : V)
      → (entries : List (ActivationCondition hb × V)) → In (c, v) entries
      → condition_equal hb box n c ≡ true
      → (w : V) × (find_condition hb box n entries ≡ some w)
  unfolding find_condition find_key
  found-In n c v [] i e = absurd i
  found-In n c v ((d, w) ∷ entries) (inl q) e = (w, ground (arith, e, q))
  found-In n c v ((d, w) ∷ entries) (inr i) e = elim (Bool-cases (condition_equal hb box n d)) [
    | inl h ↦ (w, rw h refl)
    | inr h ↦ let (x, k) = found-In n c v entries i e in (x, rw (h, find_key) k)
  ]
