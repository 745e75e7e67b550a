-- ===== src/App/SearchLoop.antt =====
-- binary_search of src/os/app/bs.c finds what is in the table.
use native.Mathlib.Decide.{dec_lt}
use flexpret.Common.{
  ℕ, zero, suc, ◌+◌, ◌-◌, ◌/◌, ◌<◌, ◌≤◌, ◌≡◌, ◌≢◌, ◌⊎◌, inl, inr, refl, ap, false, ltb, Bool-cases,
  Option, some, arith,
}
use flexpret.Common.Int.{ℤ, pos, negsuc}
use flexpret.App.Search.{
  Search, entry, round, search_loop, binary_search, rising, IsBelow, IsAbove, IsBelow-down,
  IsAbove-up, IsBelow-ne, IsAbove-ne, decided,
}

module _ (x : ℤ) where
  -- The element with key x, or that there is none.
  abbrev pub Found : Option ℤ → Type 0
  Found r =
      ((i : ℕ) × (i < 15) × (pos (entry i).key ≡ x) × (r ≡ some (pos (entry i).value)))
      ⊎ (((i : ℕ) → i < 15 → pos (entry i).key ≢ x) × (r ≡ some (negsuc 0)))

  -- The element was found, and the range is empty.
  record IsHit (s : Search) : Type 0 where
    empty : s.past ≤ s.low
    index : ℕ
    inside : index < 15
    key : pos (entry index).key ≡ x
    value : s.fvalue ≡ pos (entry index).value

  -- The element is not outside of the range.
  record IsOpen (s : Search) : Type 0 where
    inside : s.past ≤ 15
    value : s.fvalue ≡ negsuc 0
    below : (i : ℕ) → i < s.low → i < 15 → IsBelow (entry i).key x
    above : (i : ℕ) → s.past ≤ i → i < 15 → IsAbove (entry i).key x

  abbrev mid : Search → ℕ
  mid s = (s.low + (s.past - 1)) / 2

  -- A round ends with a hit, or with an open range that is smaller.
  round-IsOpen :
      (s : Search)
      → IsOpen s
      → s.low < s.past
      → IsHit (round x s)
        ⊎ (IsOpen (round x s) × ((round x s).past - (round x s).low < s.past - s.low))
  round-IsOpen s o h = elim (decided (entry (mid s)).key x) [
    | inl (p, e) ↦ rw p (
        inl (record {
          empty = omega arith;
          index = mid s;
          inside = omega (arith, o.inside);
          key = e;
          value = refl;
        }))
    | inr (inl (p, (q, a))) ↦
        rw (p, q)
          (inr (
            record {
              inside = omega (arith, o.inside);
              value = o.value;
              below = o.below;
              above =
                  λ i r k. IsAbove-up (entry (mid s)).key (entry i).key x (rising (mid s) i r k) a;
            },
            omega arith,
          ))
    | inr (inr (p, (q, b))) ↦
        rw (p, q)
          (inr (
            record {
              inside = o.inside;
              value = o.value;
              below = λ i r k.
                  IsBelow-down (entry i).key (entry (mid s)).key x
                    (rising i (mid s) (omega arith) (omega (arith, o.inside))) b;
              above = o.above;
            },
            omega arith,
          ))
  ]

  IsHit-Found : (fuel : ℕ) (s : Search) → IsHit s → 0 < fuel → Found (search_loop fuel x s)
  unfolding search_loop
  IsHit-Found zero s h p = absurd (omega arith)
  IsHit-Found (suc fuel) s h p =
      let e : ltb s.low s.past ≡ false = ground (arith, h.empty) in
      rw e (inl (h.index, h.inside, h.key, ap (λ v. some v) h.value))

  missing : (s : Search) → IsOpen s → s.past ≤ s.low → (i : ℕ) → i < 15 → pos (entry i).key ≢ x
  missing s o h i p = elim (dec_lt i s.low) [
    | yes q ↦ IsBelow-ne (entry i).key x (o.below i q p)
    | no q ↦ IsAbove-ne (entry i).key x (o.above i (omega arith) p)
  ]

  IsOpen-Found :
      (fuel : ℕ) (s : Search) → IsOpen s → s.past - s.low + 1 < fuel → Found (search_loop fuel x s)
  unfolding search_loop
  IsOpen-Found zero s o p = absurd (omega arith)
  IsOpen-Found (suc fuel) s o p = elim (Bool-cases (ltb s.low s.past)) [
    | inr e ↦ rw e (inr (missing s o (ground arith), ap (λ v. some v) o.value))
    | inl e ↦ rw e (elim (round-IsOpen s o (ground arith)) [
      | inl hit ↦ IsHit-Found fuel (round x s) hit (omega arith)
      | inr (o', less) ↦ IsOpen-Found fuel (round x s) o' (omega arith)
    ])
  ]

-- binary_search returns for every int: the value of an element whose key it is, or -1 if there is none in
-- the table.
binary_search-Found : (x : ℤ) → Found x (binary_search x)
unfolding binary_search
binary_search-Found x =
    IsOpen-Found x 17 (record { low = 0; past = 15; fvalue = negsuc 0 })
      (record {
        inside = omega arith;
        value = refl;
        below = λ i p. absurd (omega arith);
        above = λ i p q. absurd (omega arith);
      })
      (omega arith)
