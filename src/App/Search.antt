-- ===== src/App/Search.antt =====
-- src/os/app/bs.c: binary_search on its table of 15 elements.
use native.Mathlib.Decide.{dec_lt}
use flexpret.Common.{
  ℕ, zero, suc, ◌+◌, ◌-◌, ◌/◌, ◌<◌, ◌≤◌, ◌≡◌, ◌≢◌, ◌⊎◌, inl, inr, refl, ap, Bool, true, false, ◌==◌,
  ltb, if◌then◌else◌, Option, none, some, List, [], ◌∷◌, get_or, length, compare_cases, arith,
}
use flexpret.Common.Int.{ℤ, pos, negsuc}

pub record Data : Type 0 where
  pub key : ℕ
  pub value : ℕ

abbrev pub pair : ℕ → ℕ → Data
pair k v = record { key = k; value = v }

-- struct DATA data[15]
abbrev pub table : List Data
table =
    pair 1 100
    ∷ pair 5 200
    ∷ pair 6 300
    ∷ pair 7 700
    ∷ pair 8 900
    ∷ pair 9 250
    ∷ pair 10 400
    ∷ pair 11 600
    ∷ pair 12 800
    ∷ pair 13 1500
    ∷ pair 14 1200
    ∷ pair 15 110
    ∷ pair 16 140
    ∷ pair 17 133
    ∷ pair 18 10
    ∷ []

-- data[i]
abbrev pub entry : ℕ → Data
entry i = get_or table i (pair 0 0)

-- data[mid].key == x and data[mid].key > x, for an int x
abbrev pub is_key : ℕ → ℤ → Bool
is_key k (pos x) = k == x
is_key k (negsuc x) = false

abbrev pub is_above : ℕ → ℤ → Bool
is_above k (pos x) = ltb x k
is_above k (negsuc x) = true

-- The variables of binary_search. `past` is up + 1, since up may be -1: low <= up is low < past.
pub record Search : Type 0 where
  pub low : ℕ
  pub past : ℕ
  pub fvalue : ℤ

-- The body of the `while`.
abbrev pub round : ℤ → Search → Search
round x s =
    let mid = (s.low + (s.past - 1)) / 2 in
    if is_key (entry mid).key x
    then record s { past = s.low; fvalue = pos (entry mid).value }
    else if is_above (entry mid).key x
    then record s { past = mid }
    else record s { low = mid + 1 }

-- The `while`, with `fuel` tests of its condition.
unfoldable pub search_loop : ℕ → ℤ → Search → Option ℤ
search_loop zero x s = none
search_loop (suc fuel) x s =
    let rest = search_loop fuel x (round x s) in if ltb s.low s.past then rest else some s.fvalue

-- binary_search, with room for 17 tests
unfoldable pub binary_search : ℤ → Option ℤ
unfolding search_loop
binary_search x = search_loop 17 x (record { low = 0; past = 15; fvalue = negsuc 0 })

-- bs_main
unfoldable pub bs_main : Option ℤ
unfolding binary_search
bs_main = binary_search (pos 8)

-- The keys rise.
abbrev Rises : List Data → Type 0
Rises [] = Unit {0}
Rises (a ∷ []) = Unit {0}
Rises (a ∷ (b ∷ l)) = (a.key < b.key) × Rises (b ∷ l)

Rises-first :
    (a d : Data) (l : List Data) (j : ℕ) → Rises (a ∷ l) → j < length l → a.key < (get_or l j d).key
Rises-first a d [] j r h = absurd (omega arith)
Rises-first a d (b ∷ l) zero r h = r.0
Rises-first a d (b ∷ l) (suc j) r h = omega (arith, r.0, Rises-first b d l j r.1 (omega arith))

Rises-rest : (a : Data) (l : List Data) → Rises (a ∷ l) → Rises l
Rises-rest a [] r = tt
Rises-rest a (b ∷ l) r = r.1

Rises-get_or :
    (l : List Data) (d : Data) (i j : ℕ)
    → Rises l
    → i < j
    → j < length l
    → (get_or l i d).key < (get_or l j d).key
Rises-get_or [] d i j r p q = absurd (omega arith)
Rises-get_or (a ∷ l) d i zero r p q = absurd (omega arith)
Rises-get_or (a ∷ l) d zero (suc j) r p q = Rises-first a d l j r (omega arith)
Rises-get_or (a ∷ l) d (suc i) (suc j) r p q =
    Rises-get_or l d i j (Rises-rest a l r) (omega arith) (omega arith)

table-Rises : Rises table
table-Rises = ground arith

pub rising : (i j : ℕ) → i ≤ j → j < 15 → (entry i).key ≤ (entry j).key
rising i j p q = elim (dec_lt i j) [
  | yes less ↦ omega (arith, Rises-get_or table (pair 0 0) i j table-Rises less q)
  | no same ↦ let e : i ≡ j = omega arith in rw e (omega arith)
]

-- A key is below an int, or above.
abbrev pub IsBelow : ℕ → ℤ → Type 0
IsBelow k (pos x) = k < x
IsBelow k (negsuc x) = ⊥

abbrev pub IsAbove : ℕ → ℤ → Type 0
IsAbove k (pos x) = x < k
IsAbove k (negsuc x) = Unit {0}

pub IsBelow-down : (j k : ℕ) (x : ℤ) → j ≤ k → IsBelow k x → IsBelow j x
IsBelow-down j k (pos x) p h = omega arith
IsBelow-down j k (negsuc x) p h = h

pub IsAbove-up : (j k : ℕ) (x : ℤ) → j ≤ k → IsAbove j x → IsAbove k x
IsAbove-up j k (pos x) p h = omega arith
IsAbove-up j k (negsuc x) p h = tt

pos-value : ℤ → ℕ
pos-value (pos n) = n
pos-value (negsuc n) = n

pub IsBelow-ne : (k : ℕ) (x : ℤ) → IsBelow k x → pos k ≢ x
unfolding pos-value
IsBelow-ne k (pos x) h e = omega (arith, ap pos-value e)
IsBelow-ne k (negsuc x) h e = h

is_pos : ℤ → Bool
is_pos (pos n) = true
is_pos (negsuc n) = false

pub IsAbove-ne : (k : ℕ) (x : ℤ) → IsAbove k x → pos k ≢ x
unfolding pos-value is_pos
IsAbove-ne k (pos x) h e = omega (arith, ap pos-value e)
IsAbove-ne k (negsuc x) h e = ground (arith, ap is_pos e)

-- The tests of the body decide where a key lies.
abbrev pub Decided : ℕ → ℤ → Type 0
Decided k x =
    ((is_key k x ≡ true) × (pos k ≡ x))
    ⊎ (((is_key k x ≡ false) × ((is_above k x ≡ true) × IsAbove k x))
        ⊎ ((is_key k x ≡ false) × ((is_above k x ≡ false) × IsBelow k x)))

pub decided : (k : ℕ) (x : ℤ) → Decided k x
decided k (negsuc x) = inr (inl (refl, (refl, tt)))
decided k (pos x) = elim (compare_cases k x) [
  | inl less ↦ inr (inr (ground arith, (ground arith, less)))
  | inr (inl same) ↦ inl (ground arith, ap pos same)
  | inr (inr more) ↦ inr (inl (ground arith, (ground arith, more)))
]
