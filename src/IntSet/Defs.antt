-- ===== src/IntSet/Defs.antt =====
-- The interface of hb_set_t, and the members of IntSet that are written over it.
use ift_encoder.Prelude.{
  ℕ, suc, ◌≤◌, ◌≡◌, ◌↔◌, Bool, true, false, not, ◌&&◌, ◌||◌, List, [], ◌∷◌, Option, none, some, ltb,
  ◌==◌, if◌then◌else◌, length,
}

abbrev pub mem : ℕ → List ℕ → Bool
mem x [] = false
mem x (y ∷ ys) = x == y || mem x ys

-- Each value is above those before it, and `lo` is at most the first.
abbrev pub Ascending : ℕ → List ℕ → Type 0
Ascending lo [] = Unit
Ascending lo (x ∷ xs) = (lo ≤ x) × Ascending (suc x) xs

abbrev pub first : List ℕ → Option ℕ
first [] = none
first (x ∷ xs) = some x

-- What HarfBuzz documents of its sets. `values` is the iteration by hb_set_next, in ascending order.
pub record HbSet : Type 1 where
  pub Set : Type 0
  pub empty : Set
  pub values : Set → List ℕ
  pub has : Set → ℕ → Bool
  pub add : Set → ℕ → Set
  pub union : Set → Set → Set
  pub subtract : Set → Set → Set
  pub population : Set → ℕ
  pub is_subset : Set → Set → Bool
  pub is_equal : Set → Set → Bool
  -- hb_set_get_min as IntSet::min returns it: `none` for HB_SET_VALUE_INVALID.
  pub get_min : Set → Option ℕ
  pub is_empty : Set → Bool
  pub values_ascending : (s : Set) → Ascending 0 (values s)
  pub has_values : (s : Set) (x : ℕ) → has s x ≡ mem x (values s)
  pub has_empty : (x : ℕ) → has empty x ≡ false
  pub has_add : (s : Set) (a x : ℕ) → has (add s a) x ≡ (x == a || has s x)
  pub has_union : (s t : Set) (x : ℕ) → has (union s t) x ≡ (has s x || has t x)
  pub has_subtract : (s t : Set) (x : ℕ) → has (subtract s t) x ≡ (has s x && not (has t x))
  pub population_lem : (s : Set) → population s ≡ length (values s)
  pub is_subset_iff :
      (s t : Set) → (is_subset s t ≡ true) ↔ ((x : ℕ) → has s x ≡ true → has t x ≡ true)
  pub get_min_lem : (s : Set) → get_min s ≡ first (values s)
  pub is_empty_lem : (s : Set) → is_empty s ≡ (length (values s) == 0)
  pub is_equal_iff : (s t : Set) → (is_equal s t ≡ true) ↔ ((x : ℕ) → has s x ≡ has t x)

-- IntSet::operator<, over the two iterations.
unfoldable pub less : List ℕ → List ℕ → Bool
less [] [] = false
less [] (y ∷ ys) = true
less (x ∷ xs) [] = false
less (x ∷ xs) (y ∷ ys) = if ltb x y then true else if ltb y x then false else less xs ys

module _ (hb : HbSet) where
  open hb use {Set, values, has, population}

  -- The loop of the private IntSet::intersects, over the values of its first argument.
  unfoldable pub find_in : List ℕ → Set → Bool
  find_in [] b = false
  find_in (x ∷ xs) b = if has b x then true else find_in xs b

  -- IntSet::intersects: the loop runs over the smaller set.
  unfoldable pub intersects : Set → Set → Bool
  unfolding find_in
  intersects a b =
      if ltb (population b) (population a) then find_in (values b) a else find_in (values a) b
