-- ===== src/EntryGraph/Queue.antt =====
-- The queue of TopologicalSort.
use ift_encoder.Prelude.{
  ℕ, zero, suc, ◌+◌, ◌<◌, ◌≡◌, refl, ap, ◌∙◌, Bool, true, false, not, ◌||◌, ltb, List, [], ◌∷◌,
  ◌++◌, ◌==◌, ==_iff, append_assoc, length-append, get_or-append, length, get_or, All, arith,
  Bool-cases, inl, inr,
}
use mathlib.Core.Path.{subst}
use ift_encoder.IntSet.Defs.{mem}
use ift_encoder.EntryGraph.Sort.{pop_top, zero_counts}
use ift_encoder.EntryGraph.Counts.{IsZero, NoRepeat}

pub pop_top-All :
    (before : ℕ → ℕ → Bool) (P : ℕ → Type 0) (x : ℕ) (queue : List ℕ)
    → P x
    → All P queue
    → P (pop_top before x queue).0 × All P (pop_top before x queue).1
unfolding pop_top
pop_top-All before P x [] p all = (p, tt)
pop_top-All before P x (y ∷ ys) p (q, all) =
    let (t, rest) = pop_top-All before P y ys q all in
    elim (Bool-cases (before (pop_top before y ys).0 x)) [
      | inl e ↦ rw (e, All) (p, (t, rest))
      | inr e ↦ rw (e, All) (t, (p, rest))
    ]

pub length-pop_top :
    (before : ℕ → ℕ → Bool) (x : ℕ) (queue : List ℕ)
    → length (pop_top before x queue).1 ≡ length queue
unfolding pop_top
length-pop_top before x [] = refl
length-pop_top before x (y ∷ ys) = elim (Bool-cases (before (pop_top before y ys).0 x)) [
  | inl e ↦ rw (e, pop_top) (ap suc (length-pop_top before y ys))
  | inr e ↦ rw (e, pop_top) (ap suc (length-pop_top before y ys))
]

pub mem-pop_top :
    (before : ℕ → ℕ → Bool) (x : ℕ) (queue : List ℕ) (z : ℕ)
    → mem z ((pop_top before x queue).0 ∷ (pop_top before x queue).1) ≡ mem z (x ∷ queue)
unfolding pop_top
mem-pop_top before x [] z = refl
mem-pop_top before x (y ∷ ys) z =
    let rest = mem-pop_top before y ys z in
    elim (Bool-cases (before (pop_top before y ys).0 x)) [
      | inl e ↦ rw (e, pop_top) (ground (arith, rest))
      | inr e ↦ rw (e, pop_top) (ground (arith, rest))
    ]

pub NoRepeat-pop_top :
    (before : ℕ → ℕ → Bool) (x : ℕ) (queue : List ℕ)
    → NoRepeat (x ∷ queue)
    → NoRepeat ((pop_top before x queue).0 ∷ (pop_top before x queue).1)
unfolding pop_top
NoRepeat-pop_top before x [] n = n
NoRepeat-pop_top before x (y ∷ ys) (m, n) =
    let rest = NoRepeat-pop_top before y ys n in
    let apart : mem x ((pop_top before y ys).0 ∷ (pop_top before y ys).1) ≡ false =
      mem-pop_top before y ys x ∙ m in
    elim (Bool-cases (before (pop_top before y ys).0 x)) [
      | inl e ↦ rw (e, NoRepeat) (apart, rest)
      | inr e ↦ rw (e, NoRepeat) (ground (arith, apart, rest.0), (ground (arith, apart), rest.1))
    ]

pub mem-snoc : (x y : ℕ) (xs : List ℕ) → mem x (xs ++ y ∷ []) ≡ (mem x xs || x == y)
mem-snoc x y [] = ground arith
mem-snoc x y (z ∷ xs) = ground (arith, mem-snoc x y xs)

pub NoRepeat-append :
    (xs : List ℕ) (y : ℕ) → NoRepeat xs → mem y xs ≡ false → NoRepeat (xs ++ y ∷ [])
NoRepeat-append [] y n m = (refl, tt)
NoRepeat-append (x ∷ xs) y (k, n) m =
    (ground (arith, mem-snoc x y xs, k, m), NoRepeat-append xs y n (ground (arith, m)))

-- What is apart from a list and from a value is apart from the list with the value.
pub apart-append :
    (xs queue : List ℕ) (y : ℕ)
    → All (λ x. not (mem x xs) ≡ true) queue
    → mem y queue ≡ false
    → All (λ x. not (mem x (xs ++ y ∷ [])) ≡ true) queue
apart-append xs [] y all m = tt
apart-append xs (x ∷ queue) y (a, all) m =
    (ground (arith, mem-snoc x y xs, a, m), apart-append xs queue y all (ground (arith, m)))

pub zero_counts-above : (i x : ℕ) (counts : List ℕ) → x < i → mem x (zero_counts i counts) ≡ false
unfolding zero_counts
zero_counts-above i x [] l = refl
zero_counts-above i x (n ∷ counts) l =
    let rest = zero_counts-above (suc i) x counts (omega arith) in ground (arith, rest)

pub zero_counts-NoRepeat : (i : ℕ) (counts : List ℕ) → NoRepeat (zero_counts i counts)
unfolding zero_counts
zero_counts-NoRepeat i [] = tt
zero_counts-NoRepeat i (n ∷ counts) = elim (Bool-cases (n == 0)) [
  | inl e ↦
      rw (e, NoRepeat)
        (zero_counts-above (suc i) i counts (omega arith), zero_counts-NoRepeat (suc i) counts)
  | inr e ↦ rw (e, NoRepeat) (zero_counts-NoRepeat (suc i) counts)
]

pub zero_counts-ltb :
    (i m : ℕ) (counts : List ℕ)
    → i + length counts ≡ m
    → All (λ x. ltb x m ≡ true) (zero_counts i counts)
unfolding zero_counts
zero_counts-ltb i m [] e = tt
zero_counts-ltb i m (n ∷ counts) e =
    let rest = zero_counts-ltb (suc i) m counts (omega (arith, e)) in
    elim (Bool-cases (n == 0)) [
      | inl h ↦ rw (h, All) (ground (arith, e), rest)
      | inr h ↦ rw (h, All) rest
    ]

pub not_zero-ltb :
    (counts : List ℕ) (x : ℕ) → (get_or counts x 0 == 0) ≡ false → ltb x (length counts) ≡ true
not_zero-ltb [] x h = cc
not_zero-ltb (n ∷ counts) zero h = ground arith
not_zero-ltb (n ∷ counts) (suc x) h = ground (arith, not_zero-ltb counts x)

pub no_values : (xs : List ℕ) → All (λ x. not (mem x []) ≡ true) xs
no_values [] = tt
no_values (x ∷ xs) = (refl, no_values xs)

pub zero_counts-IsZero :
    (i : ℕ) (front counts : List ℕ)
    → length front ≡ i
    → All (IsZero (front ++ counts)) (zero_counts i counts)
unfolding zero_counts
zero_counts-IsZero i front [] e = tt
zero_counts-IsZero i front (n ∷ counts) e =
    let rest : All (IsZero (front ++ n ∷ counts)) (zero_counts (suc i) counts) =
      subst (λ xs. All (IsZero xs) (zero_counts (suc i) counts))
        (append_assoc front (n ∷ []) counts)
        (zero_counts-IsZero (suc i) (front ++ n ∷ []) counts
          (omega (arith, length-append front (n ∷ []), e))) in
    elim (Bool-cases (n == 0)) [
      | inl h ↦
          rw (h, All)
            (
              subst (λ j. IsZero (front ++ n ∷ counts) j) e
                  (get_or-append front (n ∷ counts) 0 ∙ (==_iff n 0).0 h),
              rest,
            )
      | inr h ↦ rw (h, All) rest
    ]
