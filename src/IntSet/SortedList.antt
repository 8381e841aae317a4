-- ===== src/IntSet/SortedList.antt =====
-- A set as an ascending list: an implementation of the interface of hb_set_t, at which the theorems
-- over that interface are run.
use ift_encoder.Prelude.{
  ℕ, suc, ◌≤◌, ◌≡◌, ◌↔◌, refl, sym, ap, ◌∙◌, Bool, true, not, ◌&&◌, ◌||◌, List, [], ◌∷◌, arith,
  Bool-cases, inl, inr, if◌then◌else◌, length, ltb, ◌==◌, ==_iff,
}
use ift_encoder.IntSet.Defs.{HbSet, mem, Ascending, first}

abbrev pub SortedList : Type 0
SortedList = (xs : List ℕ) × Ascending 0 xs

unfoldable pub insert : ℕ → List ℕ → List ℕ
insert a [] = a ∷ []
insert a (x ∷ xs) = if ltb a x then a ∷ x ∷ xs else if ltb x a then x ∷ insert a xs else x ∷ xs

pub insert-Ascending :
    (a lo : ℕ) (xs : List ℕ) → lo ≤ a → Ascending lo xs → Ascending lo (insert a xs)
unfolding insert
insert-Ascending a lo [] h v = (h, tt)
insert-Ascending a lo (x ∷ xs) h v = ground (arith, insert-Ascending a (suc x) xs)

pub mem-insert : (a x : ℕ) (xs : List ℕ) → mem x (insert a xs) ≡ (x == a || mem x xs)
unfolding insert
mem-insert a x [] = refl
mem-insert a x (y ∷ ys) = ground (arith, mem-insert a x ys)

unfoldable pub insert_all : List ℕ → List ℕ → List ℕ
insert_all [] ys = ys
insert_all (x ∷ xs) ys = insert x (insert_all xs ys)

pub insert_all-Ascending : (xs ys : List ℕ) → Ascending 0 ys → Ascending 0 (insert_all xs ys)
unfolding insert_all
insert_all-Ascending [] ys v = v
insert_all-Ascending (x ∷ xs) ys v =
    insert-Ascending x 0 (insert_all xs ys) (omega arith) (insert_all-Ascending xs ys v)

pub mem-insert_all : (x : ℕ) (xs ys : List ℕ) → mem x (insert_all xs ys) ≡ (mem x xs || mem x ys)
unfolding insert_all
mem-insert_all x [] ys = refl
mem-insert_all x (y ∷ xs) ys =
    ground (arith, mem-insert_all x xs ys, mem-insert y x (insert_all xs ys))

-- The values of `xs` that `keep` holds of.
unfoldable pub select : (ℕ → Bool) → List ℕ → List ℕ
select keep [] = []
select keep (x ∷ xs) = if keep x then x ∷ select keep xs else select keep xs

raise : (lo lo' : ℕ) (xs : List ℕ) → lo ≤ lo' → Ascending lo' xs → Ascending lo xs
raise lo lo' [] h v = tt
raise lo lo' (x ∷ xs) h v = (omega arith, v.1)

pub select-Ascending :
    (keep : ℕ → Bool) (lo : ℕ) (xs : List ℕ) → Ascending lo xs → Ascending lo (select keep xs)
unfolding select
select-Ascending keep lo [] v = tt
select-Ascending keep lo (x ∷ xs) v = elim (Bool-cases (keep x)) [
  | inl e ↦ rw e (v.0, select-Ascending keep (suc x) xs v.1)
  | inr e ↦
      rw e (raise lo (suc x) (select keep xs) (omega arith) (select-Ascending keep (suc x) xs v.1))
]

pub mem-select :
    (keep : ℕ → Bool) (x : ℕ) (xs : List ℕ) → mem x (select keep xs) ≡ (mem x xs && keep x)
unfolding select
mem-select keep x [] = refl
mem-select keep x (y ∷ ys) = elim (Bool-cases (x == y)) [
  | inl e ↦ ground (arith, mem-select keep x ys, ap keep ((==_iff x y).0 e))
  | inr e ↦ ground (arith, mem-select keep x ys)
]

unfoldable pub subset : List ℕ → List ℕ → Bool
subset [] ys = true
subset (x ∷ xs) ys = mem x ys && subset xs ys

pub subset_sound :
    (xs ys : List ℕ) → subset xs ys ≡ true → (x : ℕ) → mem x xs ≡ true → mem x ys ≡ true
unfolding subset
subset_sound [] ys h x m = cc
subset_sound (y ∷ xs) ys h x m = elim (Bool-cases (x == y)) [
  | inl e ↦ ground (arith, ap (λ (t : ℕ). mem t ys) ((==_iff x y).0 e))
  | inr e ↦ subset_sound xs ys (ground arith) x (rw e at m)
]

pub subset_complete :
    (xs ys : List ℕ) → ((x : ℕ) → mem x xs ≡ true → mem x ys ≡ true) → subset xs ys ≡ true
unfolding subset
subset_complete [] ys h = refl
subset_complete (x ∷ xs) ys h =
    ground (arith, h x (ground arith), subset_complete xs ys (λ z m. h z (ground (arith, m))))

unfoldable pub same : List ℕ → List ℕ → Bool
same xs ys = subset xs ys && subset ys xs

pub same_iff : (xs ys : List ℕ) → (same xs ys ≡ true) ↔ ((x : ℕ) → mem x xs ≡ mem x ys)
unfolding same
same_iff xs ys = (
  (λ h x. elim (Bool-cases (mem x xs)) [
    | inl e ↦ rw e (sym (subset_sound xs ys (ground arith) x e))
    | inr e ↦ elim (Bool-cases (mem x ys)) [
      | inl f ↦ cc (subset_sound ys xs (ground arith) x f)
      | inr f ↦ rw (e, f)
    ]
  ]),
  λ h.
      ground (
        arith,
        subset_complete xs ys (λ x m. sym (h x) ∙ m),
        subset_complete ys xs (λ x m. h x ∙ m),
      ),
)

abbrev pub sorted_lists : HbSet
sorted_lists = record {
  Set = SortedList;
  empty = ([], tt);
  values = λ s. s.0;
  has = λ s x. mem x s.0;
  add = λ s a. (insert a s.0, insert-Ascending a 0 s.0 (omega arith) s.1);
  union = λ s t. (insert_all s.0 t.0, insert_all-Ascending s.0 t.0 t.1);
  subtract = λ s t. (select (λ x. not (mem x t.0)) s.0, select-Ascending _ 0 s.0 s.1);
  population = λ s. length s.0;
  is_subset = λ s t. subset s.0 t.0;
  is_equal = λ s t. same s.0 t.0;
  get_min = λ s. first s.0;
  is_empty = λ s. length s.0 == 0;
  values_ascending = λ s. s.1;
  has_values = λ s x. refl;
  has_empty = λ x. refl;
  has_add = λ s a x. mem-insert a x s.0;
  has_union = λ s t x. mem-insert_all x s.0 t.0;
  has_subtract = λ s t x. mem-select (λ y. not (mem y t.0)) x s.0;
  population_lem = λ s. refl;
  is_subset_iff = λ s t. (subset_sound s.0 t.0, subset_complete s.0 t.0);
  get_min_lem = λ s. refl;
  is_empty_lem = λ s. refl;
  is_equal_iff = λ s t. same_iff s.0 t.0;
}
