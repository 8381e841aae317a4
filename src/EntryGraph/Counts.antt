-- ===== src/EntryGraph/Counts.antt =====
-- The counts of TopologicalSort, and its loop over the children of a node.
use ift_encoder.Prelude.{
  ℕ, zero, suc, ◌+◌, ◌-◌, ◌≡◌, refl, sym, ap, ◌∙◌, Bool, true, false, List, [], ◌∷◌, ◌++◌, Option,
  none, some, ◌==◌, ==_iff, if◌then◌else◌, if-true, if-false, length, get_or, set, All, length-set,
  get_or-set_other, arith, Bool-cases, inl, inr,
}
use mathlib.Core.Path.{subst}
use ift_encoder.IntSet.Defs.{mem}
use ift_encoder.EntryGraph.Sort.{zero_counts, visit_children}

-- The number of counts that are not 0.
unfoldable pub positives : List ℕ → ℕ
positives [] = 0
positives (n ∷ counts) = if n == 0 then positives counts else suc (positives counts)

pub length-zero_counts :
    (i : ℕ) (counts : List ℕ) → length (zero_counts i counts) + positives counts ≡ length counts
unfolding zero_counts positives
length-zero_counts i [] = refl
length-zero_counts i (n ∷ counts) = ground (arith, length-zero_counts (suc i) counts)

pub positives-set :
    (counts : List ℕ) (i : ℕ)
    → (get_or counts i 0 == 0) ≡ false
    → positives (set counts i (get_or counts i 0 - 1))
        + (if get_or counts i 0 - 1 == 0 then 1 else 0)
      ≡ positives counts
unfolding positives
positives-set [] i h = cc
positives-set (n ∷ counts) zero h = ground arith
positives-set (n ∷ counts) (suc i) h = ground (arith, positives-set counts i)

pub lowered :
    (counts : List ℕ) (i : ℕ)
    → (get_or counts i 0 == 0) ≡ false
    → get_or (set counts i (get_or counts i 0 - 1)) i 0 ≡ get_or counts i 0 - 1
lowered [] i h = cc
lowered (n ∷ counts) zero h = refl
lowered (n ∷ counts) (suc i) h = lowered counts i h

abbrev pub IsZero : List ℕ → ℕ → Type 0
IsZero counts x = get_or counts x 0 ≡ 0

-- A count that is lowered leaves the counts that are 0.
pub IsZero-stays :
    (counts : List ℕ) (i x : ℕ)
    → (get_or counts i 0 == 0) ≡ false
    → IsZero counts x
    → IsZero (set counts i (get_or counts i 0 - 1)) x
IsZero-stays counts i x h z = elim (Bool-cases (i == x)) [
  | inl e ↦ absurd (ground (arith, h, ap (λ (t : ℕ). get_or counts t 0) ((==_iff i x).0 e), z))
  | inr e ↦ get_or-set_other counts i x (get_or counts i 0 - 1) 0 (λ q. ground (arith, q, e)) ∙ z
]

pub All-map : (P Q : ℕ → Type 0) → ((x : ℕ) → P x → Q x) → (xs : List ℕ) → All P xs → All Q xs
All-map P Q f [] all = tt
All-map P Q f (x ∷ xs) (p, all) = (f x p, All-map P Q f xs all)

pub All-append : (P : ℕ → Type 0) (xs : List ℕ) (y : ℕ) → All P xs → P y → All P (xs ++ y ∷ [])
All-append P [] y all p = (p, tt)
All-append P (x ∷ xs) y (q, all) p = (q, All-append P xs y all p)

abbrev pub NoRepeat : List ℕ → Type 0
NoRepeat [] = Unit
NoRepeat (x ∷ xs) = (mem x xs ≡ false) × NoRepeat xs

-- A value whose count is not 0 is not in a list of values whose counts are 0.
pub not_zero-mem :
    (counts xs : List ℕ) (x : ℕ)
    → (get_or counts x 0 == 0) ≡ false
    → All (IsZero counts) xs
    → mem x xs ≡ false
not_zero-mem counts [] x h all = refl
not_zero-mem counts (y ∷ xs) x h (z, all) = elim (Bool-cases (x == y)) [
  | inl e ↦ absurd (ground (arith, h, ap (λ (t : ℕ). get_or counts t 0) ((==_iff x y).0 e), z))
  | inr e ↦ rw e (not_zero-mem counts xs x h all)
]

pub still_not_zero :
    (counts : List ℕ) (i x : ℕ)
    → (get_or counts i 0 == 0) ≡ false
    → (get_or (set counts i (get_or counts i 0 - 1)) x 0 == 0) ≡ false
    → (get_or counts x 0 == 0) ≡ false
still_not_zero counts i x h k = elim (Bool-cases (get_or counts x 0 == 0)) [
  | inr e ↦ e
  | inl e ↦
      absurd (ground (arith, k, IsZero-stays counts i x h ((==_iff (get_or counts x 0) 0).0 e)))
]

-- What the loop over the children does when it ends well.
pub record Visited (children counts queue : List ℕ) (counts' queue' : List ℕ) : Type 0 where
  pub measure : positives counts' + length queue' ≡ positives counts + length queue
  pub stays : (x : ℕ) → IsZero counts x → IsZero counts' x
  pub queued : All (IsZero counts') queue'
  pub no_child : (x : ℕ) → IsZero counts x → mem x children ≡ false
  pub pushed :
      (test : ℕ → Bool)
      → ((x : ℕ) → (get_or counts x 0 == 0) ≡ false → test x ≡ true)
      → All (λ x. test x ≡ true) queue
      → All (λ x. test x ≡ true) queue'
  pub once : NoRepeat queue → NoRepeat queue'
  pub as_long : length counts' ≡ length counts

abbrev pub IfSome : Option (List ℕ × List ℕ) → (List ℕ → List ℕ → Type 0) → Type 0
IfSome none P = Unit
IfSome (some (counts, queue)) P = P counts queue

pub IfSome-map :
    (o : Option (List ℕ × List ℕ)) (P Q : List ℕ → List ℕ → Type 0)
    → ((counts queue : List ℕ) → P counts queue → Q counts queue)
    → IfSome o P
    → IfSome o Q
IfSome-map none P Q f h = tt
IfSome-map (some (counts, queue)) P Q f h = f counts queue h

pub visit_children-Visited :
    (children counts queue : List ℕ)
    → All (IsZero counts) queue
    → IfSome (visit_children children counts queue) (Visited children counts queue)
unfolding visit_children
visit_children-Visited [] counts queue z = record {
  measure = refl;
  stays = λ x h. h;
  queued = z;
  no_child = λ x h. refl;
  pushed = λ test f all. all;
  once = λ n. n;
  as_long = refl;
}
visit_children-Visited (child ∷ children) counts queue z =
    let n = get_or counts child 0 in
    let counts1 = set counts child (n - 1) in
    let queue1 = if n - 1 == 0 then child ∷ queue else queue in
    elim (Bool-cases (n == 0)) [
      | inl h ↦
          subst (λ o. IfSome o (Visited (child ∷ children) counts queue)) (sym (if-true _ _ h)) tt
      | inr h ↦
          let kept =
            All-map (IsZero counts) (IsZero counts1) (λ x q. IsZero-stays counts child x h q) queue
              z in
          let queued1 : All (IsZero counts1) queue1 = elim (Bool-cases (n - 1 == 0)) [
            | inl q ↦ rw (q, All) (lowered counts child h ∙ (==_iff (n - 1) 0).0 q, kept)
            | inr q ↦ rw (q, All) kept
          ] in
          subst (λ o. IfSome o (Visited (child ∷ children) counts queue)) (sym (if-false _ _ h))
            (IfSome-map (visit_children children counts1 queue1) (Visited children counts1 queue1)
              (Visited (child ∷ children) counts queue)
              (λ counts' queue' v. record {
                measure = v.measure ∙ ground (arith, positives-set counts child h);
                stays = λ x q. v.stays x (IsZero-stays counts child x h q);
                queued = v.queued;
                no_child = λ x q. elim (Bool-cases (x == child)) [
                  | inl e ↦ absurd (
                      ground
                        (arith, h, ap (λ (t : ℕ). get_or counts t 0) ((==_iff x child).0 e), q))
                  | inr e ↦ rw e (v.no_child x (IsZero-stays counts child x h q))
                ];
                pushed = λ test f all.
                    v.pushed test (λ x k. f x (still_not_zero counts child x h k))
                      (elim (Bool-cases (n - 1 == 0)) [
                        | inl q ↦ rw (q, All) (f child h, all)
                        | inr q ↦ rw (q, All) all
                      ]);
                once = λ apart. v.once (elim (Bool-cases (n - 1 == 0)) [
                  | inl q ↦ rw (q, NoRepeat) (not_zero-mem counts queue child h z, apart)
                  | inr q ↦ rw (q, NoRepeat) apart
                ]);
                as_long = v.as_long ∙ length-set counts child (n - 1);
              })
              (visit_children-Visited children counts1 queue1 queued1))
    ]
