-- ===== src/Strings/Copy.antt =====
-- memset and memcpy: every byte after the call.
use native.Mathlib.Decide.{dec_lt}
use flexpret.Common.{
  ℕ, zero, suc, ◌+◌, ◌%◌, ◌<◌, ◌≤◌, ◌≡◌, ◌⊎◌, inl, refl, ◌∙◌, leb, ltb, ◌&&◌, if◌then◌else◌, update,
  arith,
}
use flexpret.Strings.{Memory, memset, fill, memcpy, copy_bytes}

module _ (s c : ℕ) where
  fill_at :
      (left i : ℕ) (m : Memory) (a : ℕ)
      → fill left i s c m a ≡ (if leb (s + i) a && ltb a (s + i + left) then c % 256 else m a)
  unfolding fill
  fill_at zero i m a = ground arith
  fill_at (suc left) i m a = ground (arith, fill_at left (i + 1) (update m (s + i) (c % 256)) a)

-- memset answers its pointer; the n bytes from there on are the low byte of c, all others as before.
memset-fills :
    (s c n : ℕ) (m : Memory)
    → ((memset s c n m).0 ≡ s)
      × ((a : ℕ) → (memset s c n m).1 a ≡ (if leb s a && ltb a (s + n) then c % 256 else m a))
unfolding memset
memset-fills s c n m = (refl, λ a. ground (arith, fill_at s c n 0 m a))

-- The bytes that are not written.
module _ (d s : ℕ) where
  copy_bytes-outside :
      (left i : ℕ) (m : Memory) (a : ℕ)
      → (a < d + i) ⊎ (d + i + left ≤ a)
      → copy_bytes left i d s m a ≡ m a
  unfolding copy_bytes
  copy_bytes-outside zero i m a h = refl
  copy_bytes-outside (suc left) i m a h =
      ground (arith, copy_bytes-outside left (i + 1) (update m (d + i) (m (s + i))) a)

  -- The regions do not overlap, or the destination is the lower one.
  copy_bytes-inside :
      (len left i k : ℕ) (m : Memory)
      → (d ≤ s) ⊎ (s + len ≤ d)
      → i + left ≡ len
      → i ≤ k
      → k < len
      → copy_bytes left i d s m (d + k) ≡ m (s + k)
  unfolding copy_bytes
  copy_bytes-inside len zero i k m o e p q = absurd (omega arith)
  copy_bytes-inside len (suc left) i k m o e p q =
      let m' = update m (d + i) (m (s + i)) in
      elim (dec_lt i k) [
        | yes later ↦
            copy_bytes-inside len left (i + 1) k m' o (omega arith) (omega arith) q ∙ ground arith
        | no now ↦
            let here : k ≡ i = omega arith in
            copy_bytes-outside left (i + 1) m' (d + k) (inl (omega arith)) ∙ rw here (ground arith)
      ]

-- memcpy answers its first pointer, and writes the len bytes from there on and no others. If the two
-- regions do not overlap, or the destination is the lower one, each byte is what stood at the source.
memcpy-copies :
    (d s len : ℕ) (m : Memory)
    → (d ≤ s) ⊎ (s + len ≤ d)
    → ((memcpy d s len m).0 ≡ d)
      × ((k : ℕ) → k < len → (memcpy d s len m).1 (d + k) ≡ m (s + k))
      × ((a : ℕ) → (a < d) ⊎ (d + len ≤ a) → (memcpy d s len m).1 a ≡ m a)
unfolding memcpy
memcpy-copies d s len m o = (
  refl,
  λ k q. copy_bytes-inside d s len len 0 k m o (omega arith) (omega arith) q,
  λ a h. copy_bytes-outside d s len 0 m a (ground arith),
)
