-- ===== src/Strings/Length.antt =====
-- strlen and strncpy on texts that a zero ends.
use mathlib.Core.Path.{subst}
use Prim.Native.Nat.{min}
use flexpret.Common.{
  ℕ, zero, suc, ◌+◌, ◌<◌, ◌≡◌, ◌≢◌, ◌⊎◌, inl, refl, sym, ap, ◌∙◌, true, false, some, ◌==◌, update,
  arith,
}
use flexpret.State.{null_ptr}
use flexpret.Strings.{Memory, scan, copy_text, strlen, strncpy}

-- A text of `n` characters at `a`, and the zero that ends it.
pub record IsText (m : Memory) (a n : ℕ) : Type 0 where
  pub chars : (j : ℕ) → j < n → m (a + j) ≢ 0
  pub end : m (a + n) ≡ 0

pub rest-IsText : (m : Memory) (a n : ℕ) → IsText m a (suc n) → IsText m (a + 1) n
rest-IsText m a n t = record {
  chars = λ j h. subst (λ b. m b ≢ 0) (omega arith) (t.chars (suc j) (omega arith));
  end = subst (λ b. m b ≡ 0) (omega arith) t.end;
}

pub first : (m : Memory) (a n : ℕ) → IsText m a (suc n) → m a ≢ 0
first m a n t = subst (λ b. m b ≢ 0) (omega arith) (t.chars 0 (omega arith))

pub none_left : (m : Memory) (a : ℕ) → IsText m a 0 → m a ≡ 0
none_left m a t = subst (λ b. m b ≡ 0) (omega arith) t.end

scan-end :
    (fuel n : ℕ) (m : Memory) (a : ℕ) → n < fuel → IsText m a n → scan m fuel a ≡ some (a + n)
unfolding scan
scan-end zero n m a h t = absurd (omega arith)
scan-end (suc fuel) zero m a h t = ground (arith, none_left m a t)
scan-end (suc fuel) (suc n) m a h t =
    ground (arith, first m a n t, scan-end fuel n m (a + 1) (omega arith) (rest-IsText m a n t))

-- strlen of a text of n characters answers n, when it looks at more than n characters.
pub strlen-IsText :
    (fuel n : ℕ) (m : Memory) (a : ℕ) → n < fuel → IsText m a n → strlen fuel m a ≡ some n
unfolding strlen
strlen-IsText fuel n m a h t =
    rw (strlen, scan-end fuel n m a h t) (ap {A = ℕ} (λ k. some k) (omega arith))

-- What strncpy leaves in memory `r`, from memory `m`, when it copies k characters.
pub record Copied (dest src k : ℕ) (m r : Memory) : Type 0 where
  pub chars : (j : ℕ) → j < k → r (dest + j) ≡ m (src + j)
  pub end : r (dest + k) ≡ 0
  pub outside : (a : ℕ) → (a < dest) ⊎ (dest + k < a) → r a ≡ m a

Copied-none : (dest src : ℕ) (m : Memory) → Copied dest src 0 m (update m dest 0)
Copied-none dest src m = record {
  chars = λ j h. absurd (omega arith);
  end = ground arith;
  outside = λ a h. ground arith;
}

-- After the first character.
Copied-char :
    (dest src k : ℕ) (m r : Memory)
    → Copied (dest + 1) (src + 1) k (update m dest (m src)) r
    → (dest + k + 1 < src) ⊎ (src + k < dest)
    → (j : ℕ) → j < suc k
    → r (dest + j) ≡ m (src + j)
Copied-char dest src k m r c o zero h =
    let p : dest ≡ dest + 0 = omega arith in
    let q : src ≡ src + 0 = omega arith in
    let same : update m dest (m src) dest ≡ m src = ground arith in
    ap r (sym p) ∙ c.outside dest (inl (omega arith)) ∙ same ∙ ap m q
Copied-char dest src k m r c o (suc j) h =
    let p : dest + 1 + j ≡ dest + suc j = omega arith in
    let q : src + 1 + j ≡ src + suc j = omega arith in
    subst (λ a. r a ≡ m (src + suc j)) p (c.chars j (omega arith) ∙ rw q (ground arith))

Copied-more :
    (dest src k : ℕ) (m r : Memory)
    → Copied (dest + 1) (src + 1) k (update m dest (m src)) r
    → (dest + k + 1 < src) ⊎ (src + k < dest)
    → Copied dest src (suc k) m r
Copied-more dest src k m r c o = record {
  chars = λ j h. Copied-char dest src k m r c o j h;
  end = subst (λ a. r a ≡ 0) (omega arith) c.end;
  outside = λ a h. c.outside a (ground arith) ∙ ground arith;
}

copy_text-Copied :
    (size n k dest src : ℕ) (m : Memory)
    → IsText m src n
    → k ≡ min size n
    → (dest + k < src) ⊎ (src + n < dest)
    → Copied dest src k m (copy_text size dest src m)
unfolding copy_text
copy_text-Copied zero n k dest src m t e o =
    let z : k ≡ 0 = omega arith in rw z (Copied-none dest src m)
copy_text-Copied (suc size) zero k dest src m t e o =
    let z : k ≡ 0 = omega arith in
    let s : (m src == 0) ≡ true = ground (arith, none_left m src t) in
    rw (z, s) (Copied-none dest src m)
copy_text-Copied (suc size) (suc n) k dest src m t e o =
    let s : (m src == 0) ≡ false = ground (arith, first m src n t) in
    let z : k ≡ suc (min size n) = omega arith in
    let m' = update m dest (m src) in
    let rest : IsText m' (src + 1) n = record {
      chars = λ j h f. (rest-IsText m src n t).chars j h (ground arith);
      end = ground (arith, (rest-IsText m src n t).end);
    } in
    let c = copy_text-Copied size n (min size n) (dest + 1) (src + 1) m' rest refl (omega arith) in
    rw (z, s)
      (Copied-more dest src (min size n) m (copy_text size (dest + 1) (src + 1) m') c (omega arith))

-- strncpy to NULL answers NULL and writes nothing. To another place, from a text of n characters that
-- does not overlap with what is written, it answers that place: the first `size` characters of the text,
-- or all if there are fewer, stand there with a zero after them, and nothing else is written. (So it
-- writes size + 1 bytes where the text is longer.)
pub strncpy-Copied :
    (dest src size n : ℕ) (m : Memory)
    → dest ≢ null_ptr
    → IsText m src n
    → (dest + min size n < src) ⊎ (src + n < dest)
    → (strncpy null_ptr src size m ≡ (null_ptr, m))
      × ((strncpy dest src size m).0 ≡ dest)
      × Copied dest src (min size n) m (strncpy dest src size m).1
unfolding strncpy
strncpy-Copied dest src size n m h t o =
    let e : (dest == null_ptr) ≡ false = ground arith in
    (refl, rw e refl, rw e (copy_text-Copied size n (min size n) dest src m t refl o))
