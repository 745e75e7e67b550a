-- ===== src/App/Nested.antt =====
-- ns.c of src/os/app: a search in an array of four dimensions, by four loops.
use flexpret.Common.{
  ℕ, zero, suc, ◌+◌, ◌<◌, ◌≤◌, ◌≡◌, refl, ap, Bool, false, ◌&&◌, ◌||◌, Option, none, some, ◌==◌,
  if◌then◌else◌, arith,
}
use flexpret.Common.Int.{ℤ, pos, negsuc}

-- keys, without FIND_TARGET: block i holds i, but [2][4] and [3][4] are not initialised, and so 0.
abbrev pub keys : ℕ → ℕ → ℕ → ℕ → ℕ
keys i j k l =
    if i == 4 && j == 4 && k == 4 && l == 4
    then 401
    else if (i == 2 || i == 3) && j == 4
    then 0
    else i

-- answer: a value for each block; the rows of block 2 have four elements, and so the fifth is 0.
abbrev pub answer : ℕ → ℕ → ℕ → ℕ → ℕ
answer i j k l =
    if i == 0
    then 123
    else if i == 1
    then 234
    else if i == 2
    then if l == 4 then 0 else 345
    else if i == 3
    then 456
    else if j == 4 && k == 4 && l == 4
    then 1111
    else 567

-- A loop that returns from its body, with n rounds left
unfoldable pub first : ℕ → ℕ → (ℕ → Option ℕ) → Option ℕ
first zero i body = none
first (suc n) i body =
    let rest = first n (i + 1) body in elim (body i) [ none ↦ rest | some v ↦ some v ]

-- keys[i][j][k][l] == x
abbrev pub is_key_of : ℕ → ℤ → Bool
is_key_of k (pos x) = k == x
is_key_of k (negsuc x) = false

abbrev pub look : ℤ → ℕ → ℕ → ℕ → ℕ → Option ℕ
look x i j k l = if is_key_of (keys i j k l) x then some (answer i j k l + keys i j k l) else none

unfoldable pub foo : ℤ → ℤ
unfolding first
foo x = elim (first 5 0 λ i. first 5 0 λ j. first 5 0 λ k. first 5 0 λ l. look x i j k l) [
  | none ↦ negsuc 0
  | some v ↦ pos v
]

abbrev pub ns_main : ℤ
ns_main = foo (pos 400)

first-none :
    (n i : ℕ) (body : ℕ → Option ℕ)
    → ((j : ℕ) → i ≤ j → j < i + n → body j ≡ none)
    → first n i body ≡ none
unfolding first
first-none zero i body h = refl
first-none (suc n) i body h =
    rw (first, h i (omega arith) (omega arith))
      (first-none n (i + 1) body (λ j l m. h j (omega arith) (omega arith)))

-- The numbers that foo finds
abbrev is_found : ℤ → Bool
is_found (pos x) = x == 0 || x == 1 || x == 2 || x == 3 || x == 4 || x == 401
is_found (negsuc x) = false

look-none : (x : ℤ) (i j k l : ℕ) → i < 5 → is_found x ≡ false → look x i j k l ≡ none
look-none (pos x) i j k l h e = ground arith
look-none (negsuc x) i j k l h e = refl

foo-none : (x : ℤ) → is_found x ≡ false → foo x ≡ negsuc 0
unfolding foo
foo-none x e =
    let all =
      first-none 5 0 (λ i. first 5 0 λ j. first 5 0 λ k. first 5 0 λ l. look x i j k l)
        (λ i _ h.
          first-none 5 0 (λ j. first 5 0 λ k. first 5 0 λ l. look x i j k l)
            (λ j _ _.
              first-none 5 0 (λ k. first 5 0 λ l. look x i j k l)
                (λ k _ _.
                  first-none 5 0 (λ l. look x i j k l) (λ l _ _. look-none x i j k l h e)))) in
    ap (λ o. elim o [ none ↦ negsuc 0 | some v ↦ pos v ]) all

-- The four loops find the first element of the blocks 0 to 4, and the last element of all; every other number
-- gives -1, also 400, which ns_main looks for.
foo-finds :
    (foo (pos 0) ≡ pos 123)
    × (foo (pos 1) ≡ pos 235)
    × (foo (pos 2) ≡ pos 347)
    × (foo (pos 3) ≡ pos 459)
    × (foo (pos 4) ≡ pos 571)
    × (foo (pos 401) ≡ pos 1512)
    × (ns_main ≡ negsuc 0)
    × ((x : ℤ) → is_found x ≡ false → foo x ≡ negsuc 0)
unfolding foo first
foo-finds = (refl, refl, refl, refl, refl, refl, foo-none (pos 400) refl, foo-none)
