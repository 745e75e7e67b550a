-- ===== src/App/InsertSort.antt =====
-- insertsort.c of src/os/app: insertion sort of an array of eleven numbers, by exchanging neighbours. The first
-- element is 0, so that no number passes it.
use mathlib.Core.Path.{subst}
use native.Mathlib.Decide.{dec_lt}
use flexpret.Common.{
  ℕ, zero, suc, ◌+◌, ◌-◌, ◌<◌, ◌≤◌, ◌≡◌, ◌≢◌, refl, ap, ◌∙◌, true, false, Bool-cases, inl, inr,
  Option, none, some, ◌==◌, ltb, leb, if◌then◌else◌, update, arith,
}

-- The three assignments of the inner loop, with j - 1 = k
unfoldable pub exchange : ℕ → (ℕ → ℕ) → ℕ → ℕ
exchange k a = update (update a (suc k) (a k)) k (a (suc k))

-- The inner loop, from j; `none` is a look at a[-1].
unfoldable pub sift : ℕ → (ℕ → ℕ) → Option (ℕ → ℕ)
unfolding exchange
sift zero a = none
sift (suc k) a = let rest = sift k (exchange k a) in if ltb (a (suc k)) (a k) then rest else some a

-- The outer loop, from i; `none` if it needs more tests of its condition than the fuel.
unfoldable pub sort_loop : ℕ → ℕ → (ℕ → ℕ) → Option (ℕ → ℕ)
unfolding sift
sort_loop zero i a = none
sort_loop (suc fuel) i a =
    let rest : Option (ℕ → ℕ) = elim (sift i a) [
      | none ↦ none
      | some a' ↦ sort_loop fuel (i + 1) a'
    ] in
    if leb i 10 then rest else some a

-- The assignments at the start: 0, then 11 to 2
abbrev pub unsorted : (ℕ → ℕ) → ℕ → ℕ
unsorted a j = if j == 0 then 0 else if leb j 10 then 12 - j else a j

-- insertsort_main: its value and the array
pub insertsort_main : (ℕ → ℕ) → Option (ℕ × (ℕ → ℕ))
unfolding sort_loop
insertsort_main a = elim (sort_loop 10 2 (unsorted a)) [ none ↦ none | some a' ↦ some (1, a') ]

-- In order up to i, but for the element j, which may be too small for its place.
abbrev OrderedBut : ℕ → ℕ → (ℕ → ℕ) → Type 0
OrderedBut j i a = (x y : ℕ) → x < y → y ≤ i → y ≢ j → a x ≤ a y

-- In order up to i
abbrev pub Ordered : ℕ → (ℕ → ℕ) → Type 0
Ordered i a = (x y : ℕ) → x < y → y ≤ i → a x ≤ a y

exchange-OrderedBut :
    (k i : ℕ) (a : ℕ → ℕ)
    → suc k ≤ i
    → a (suc k) < a k
    → OrderedBut (suc k) i a
    → OrderedBut k i (exchange k a)
unfolding exchange
exchange-OrderedBut k i a l h o x y p q n =
    let o1 = o x y p q in let o2 = o x k in let o3 = o k y in let o4 = o (suc k) y in grind arith

exchange_start : (k : ℕ) (a : ℕ → ℕ) → 0 < k → a 0 ≡ 0 → exchange k a 0 ≡ 0
unfolding exchange
exchange_start k a p z = ground arith

exchange_above : (k x : ℕ) (a : ℕ → ℕ) → suc k < x → exchange k a x ≡ a x
unfolding exchange
exchange_above k x a p = ground arith

ends-Ordered :
    (k i : ℕ) (a : ℕ → ℕ) → suc k ≤ i → a k ≤ a (suc k) → OrderedBut (suc k) i a → Ordered i a
ends-Ordered k i a l h o x y p q = let o1 = o x y p q in let o2 = o x k in grind arith

-- How often v stands below n
unfoldable pub count : ℕ → ℕ → (ℕ → ℕ) → ℕ
count v zero a = 0
count v (suc n) a = count v n a + (if a n == v then 1 else 0)

count-same : (v n : ℕ) (a b : ℕ → ℕ) → ((j : ℕ) → j < n → b j ≡ a j) → count v n b ≡ count v n a
unfolding count
count-same v zero a b h = refl
count-same v (suc n) a b h =
    let e = count-same v n a b (λ j l. h j (omega arith)) in
    let f = h n (omega arith) in λ i. e i + (if f i == v then 1 else 0)

count-last : (v k : ℕ) (a : ℕ → ℕ) → count v (suc (suc k)) (exchange k a) ≡ count v (suc (suc k)) a
unfolding count exchange
count-last v k a = let e = count-same v k a (exchange k a) (λ j l. ground arith) in ground arith

count-exchange : (v k n : ℕ) (a : ℕ → ℕ) → suc k < n → count v n (exchange k a) ≡ count v n a
unfolding count exchange
count-exchange v k zero a h = absurd (omega arith)
count-exchange v k (suc n) a h = elim (dec_lt (suc k) n) [
  | yes l ↦
      let e = count-exchange v k n a l in
      let f : exchange k a n ≡ a n = ground arith in λ i. e i + (if f i == v then 1 else 0)
  | no l ↦
      let m : suc k ≡ n = omega arith in
      subst (λ m. count v (suc m) (exchange k a) ≡ count v (suc m) a) m (count-last v k a)
]

-- The array a' has the elements of a up to i in order, with each as often as before, and the others of a.
pub record Sorted (i : ℕ) (a a' : ℕ → ℕ) : Type 0 where
  pub ordered : Ordered i a'
  pub start : a' 0 ≡ 0
  pub counts : (v n : ℕ) → i < n → count v n a' ≡ count v n a
  pub others : (x : ℕ) → i < x → a' x ≡ a x

then-Sorted : (i j : ℕ) (a b c : ℕ → ℕ) → i ≤ j → Sorted i a b → Sorted j b c → Sorted j a c
then-Sorted i j a b c l p q = record {
  ordered = q.ordered;
  start = q.start;
  counts = λ v n h. q.counts v n h ∙ p.counts v n (omega arith);
  others = λ x h. q.others x h ∙ p.others x (omega arith);
}

-- The inner loop ends before it looks at a[-1].
sift-Sorted :
    (j i : ℕ) (a : ℕ → ℕ)
    → 0 < j
    → j ≤ i
    → a 0 ≡ 0
    → OrderedBut j i a
    → (a' : ℕ → ℕ) × (sift j a ≡ some a') × Sorted i a a'
unfolding sift
sift-Sorted zero i a p l z o = absurd (omega arith)
sift-Sorted (suc k) i a p l z o = elim (Bool-cases (ltb (a (suc k)) (a k))) [
  | inl e ↦
      let positive : 0 < k = elim (dec_lt 0 k) [
        | yes h ↦ h
        | no h ↦ let k0 : k ≡ 0 = omega arith in absurd (grind (arith, ap a k0))
      ] in
      let h : a (suc k) < a k = ground arith in
      let b = exchange k a in
      let z' : b 0 ≡ 0 = exchange_start k a positive z in
      let (a', f, s) =
        sift-Sorted k i b positive (omega arith) z' (exchange-OrderedBut k i a l h o) in
      (
        a',
        rw e f,
        record {
          ordered = s.ordered;
          start = s.start;
          counts = λ v n q. s.counts v n q ∙ count-exchange v k n a (omega arith);
          others = λ x q. s.others x q ∙ exchange_above k x a (omega arith);
        },
      )
  | inr e ↦ (
    a,
    rw e refl,
    record {
      ordered = ends-Ordered k i a l (ground arith) o;
      start = z;
      counts = λ v n q. refl;
      others = λ x q. refl;
    },
  )
]

-- The outer loop from i = suc j, where the elements up to j are in order.
loop-Sorted :
    (fuel j : ℕ) (a : ℕ → ℕ)
    → j ≤ 10
    → 10 < j + fuel
    → a 0 ≡ 0
    → Ordered j a
    → (a' : ℕ → ℕ) × (sort_loop fuel (suc j) a ≡ some a') × Sorted 10 a a'
unfolding sort_loop
loop-Sorted zero j a l h z o = absurd (omega arith)
loop-Sorted (suc fuel) j a l h z o = elim (dec_lt j 10) [
  | yes p ↦
      let (b, e, s) =
        sift-Sorted (suc j) (suc j) a (omega arith) (omega arith) z
          (λ x y q r n. o x y q (omega arith)) in
      let (c, f, t) = loop-Sorted fuel (suc j) b (omega arith) (omega arith) s.start s.ordered in
      let next : suc j + 1 ≡ suc (suc j) = omega arith in
      let test : leb (suc j) 10 ≡ true = ground arith in
      (
        c,
        rw test (
            ap (λ r. elim r [ none ↦ none | some a' ↦ sort_loop fuel (suc j + 1) a' ]) e
            ∙ ap (λ k. sort_loop fuel k b) next
            ∙ f),
        then-Sorted (suc j) 10 a b c (omega arith) s t,
      )
  | no p ↦
      let ten : j ≡ 10 = omega arith in
      let test : leb (suc j) 10 ≡ false = ground arith in
      (
        a,
        rw test refl,
        record {
          ordered = subst (λ i. Ordered i a) ten o;
          start = z;
          counts = λ v n q. refl;
          others = λ x q. refl;
        },
      )
]

-- The loops of insertsort_main, on any array whose element 0 is 0, end within ten tests of the outer loop's
-- condition and never look outside of the array. Then the elements 0 to 10 are in order, each number stands among
-- them as often as before, and the other elements are as they were.
pub sort_loop-Sorted :
    (a : ℕ → ℕ) → a 0 ≡ 0 → (a' : ℕ → ℕ) × (sort_loop 10 2 a ≡ some a') × Sorted 10 a a'
sort_loop-Sorted a z = loop-Sorted 10 1 a (omega arith) (omega arith) z (λ x y p q. ground arith)

-- insertsort_main answers 1 and leaves its numbers in order.
insertsort_main-Sorted :
    (a : ℕ → ℕ) → (a' : ℕ → ℕ) × (insertsort_main a ≡ some (1, a')) × Sorted 10 (unsorted a) a'
unfolding insertsort_main
insertsort_main-Sorted a =
    let (a', e, s) = sort_loop-Sorted (unsorted a) refl in
    (a', ap (λ r. elim r [ none ↦ none | some x ↦ some (1, x) ]) e, s)
