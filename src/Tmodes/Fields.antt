-- ===== src/Tmodes/Fields.antt =====
-- Setting or clearing one bit of the mode register changes the field of one hart.
use flexpret.Common.{
  ℕ, zero, suc, ◌+◌, ◌*◌, ◌/◌, ◌%◌, ◌<◌, ◌≡◌, refl, sym, ap, ◌∙◌, List, [], ◌∷◌, arith, set, get_or,
}
use flexpret.Common.Bits.{
  bit_or_quad, clear_quad, bit_or_one, bit_or_two, bit_and_one, bit_and_two, pow_two_up,
}
use flexpret.Tmodes.{get_tmodes, set_bits, clear_bits, hbit, lbit}

-- The lowest n fields, one after the other.
abbrev fields : ℕ → ℕ → List ℕ
fields zero w = []
fields (suc n) w = (w % 4) ∷ fields n (w / 4)

pub get_tmodes-fields : (w : ℕ) → get_tmodes w ≡ fields 8 w
get_tmodes-fields w = ground arith

-- The field of hart i.
abbrev pub field : ℕ → ℕ → ℕ
field i w = get_or (get_tmodes w) i 0

-- A register by its lowest field and the others.
fields-cons : (n q r : ℕ) → r < 4 → fields (suc n) (q * 4 + r) ≡ r ∷ fields n q
fields-cons n q r h =
    let high : (q * 4 + r) / 4 ≡ q = omega arith in
    let low : (q * 4 + r) % 4 ≡ r = omega arith in rw (high, low)

lbit-suc : (i : ℕ) → lbit (suc i) ≡ lbit i * 4
unfolding lbit
lbit-suc i = let e : suc i * 2 ≡ i * 2 + 2 = omega arith in rw (e, pow_two_up (i * 2))

hbit-suc : (i : ℕ) → hbit (suc i) ≡ hbit i * 4
unfolding hbit
hbit-suc i = let e : suc i * 2 + 1 ≡ i * 2 + 1 + 2 = omega arith in rw (e, pow_two_up (i * 2 + 1))

-- A change of one bit of hart i acts on field i alone, if it does so on the lowest field and a shift
-- by one field carries it from hart to hart.
module _ (change : ℕ → ℕ → ℕ) (on : ℕ → ℕ) (small : (r : ℕ) → r < 4 → on r < 4)
    (low : (w : ℕ) → change 0 w ≡ w / 4 * 4 + on (w % 4))
    (up : (i w : ℕ) → change (suc i) w ≡ change i (w / 4) * 4 + w % 4) where
  fields-change :
      (n i w : ℕ) → fields n (change i w) ≡ set (fields n w) i (on (get_or (fields n w) i 0))
  fields-change zero i w = refl
  fields-change (suc n) zero w =
      rw (low w) (fields-cons n (w / 4) (on (w % 4)) (small (w % 4) (omega arith)))
  fields-change (suc n) (suc i) w = rw (up i w) (
      fields-cons n (change i (w / 4)) (w % 4) (omega arith)
      ∙ ap (◌∷◌ (w % 4)) (fields-change n i (w / 4)))

  get_tmodes-change : (i w : ℕ) → get_tmodes (change i w) ≡ set (get_tmodes w) i (on (field i w))
  get_tmodes-change i w =
      get_tmodes-fields (change i w)
      ∙ fields-change 8 i w
      ∙ sym (ap (λ m. set m i (on (get_or m i 0))) (get_tmodes-fields w))

-- What each of the four changes makes of the field.
abbrev pub make_soft : ℕ → ℕ
make_soft m = 2 + m % 2

abbrev pub make_hard : ℕ → ℕ
make_hard m = m % 2

abbrev pub make_zombie : ℕ → ℕ
make_zombie m = m / 2 * 2 + 1

abbrev pub make_active : ℕ → ℕ
make_active m = m / 2 * 2

pub set_high :
    (i w : ℕ) → get_tmodes (set_bits w (hbit i)) ≡ set (get_tmodes w) i (make_soft (field i w))
set_high =
    get_tmodes-change (λ i w. set_bits w (hbit i)) make_soft (λ r h. omega arith)
      (λ w. unfold hbit in omega (arith, bit_or_two w))
      (λ i w. rw (hbit-suc i) (bit_or_quad w (hbit i)))

pub clear_high :
    (i w : ℕ) → get_tmodes (clear_bits w (hbit i)) ≡ set (get_tmodes w) i (make_hard (field i w))
clear_high =
    get_tmodes-change (λ i w. clear_bits w (hbit i)) make_hard (λ r h. omega arith)
      (λ w. unfold hbit in omega (arith, bit_and_two w))
      (λ i w. rw (hbit-suc i) (clear_quad w (hbit i)))

pub set_low :
    (i w : ℕ) → get_tmodes (set_bits w (lbit i)) ≡ set (get_tmodes w) i (make_zombie (field i w))
set_low =
    get_tmodes-change (λ i w. set_bits w (lbit i)) make_zombie (λ r h. omega arith)
      (λ w. unfold lbit in omega (arith, bit_or_one w))
      (λ i w. rw (lbit-suc i) (bit_or_quad w (lbit i)))

pub clear_low :
    (i w : ℕ) → get_tmodes (clear_bits w (lbit i)) ≡ set (get_tmodes w) i (make_active (field i w))
clear_low =
    get_tmodes-change (λ i w. clear_bits w (lbit i)) make_active (λ r h. omega arith)
      (λ w. unfold lbit in omega (arith, bit_and_one w))
      (λ i w. rw (lbit-suc i) (clear_quad w (lbit i)))
