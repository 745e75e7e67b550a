-- ===== src/Kernel/InfoText.antt =====
-- What osKernelGetInfo writes: the version as a text, in a buffer of any size that it does not find too
-- small.
use flexpret.Common.{
  ℕ, ◌+◌, ◌-◌, ◌%◌, ◌<◌, ◌≤◌, ◌≡◌, ◌≢◌, ◌⊎◌, inl, sym, ap, ◌∙◌, false, ◌==◌, some, [], ◌∷◌, arith,
}
use flexpret.State.{Ctx, Status, null_ptr, u32_mod}
use flexpret.Strings.{Memory}
use flexpret.Strings.Hex.{row}
use flexpret.Kernel.Info.{
  Places, less_one, os_version, printed_info, print_numbers, os_kernel_get_info,
}
use flexpret.Kernel.InfoRound.{IsApart, HasLiterals, Round, round}

-- A buffer of `id_size` bytes that is not found too small: one with room for the text, but also, by the
-- wrap-around of id_size, every one of an even size.
abbrev pub Passes : ℕ → Type 0
Passes id_size = (7 ≤ id_size) ⊎ (id_size % 2 ≡ 0)

module _ (c : Ctx) (p : Places) (out : ℕ) where
  -- "1.0.0\n" and its zero stand at `out`, and nothing else outside of the function's buffers is written.
  pub record IsInfo (m r : Memory) : Type 0 where
    pub major : r out ≡ 49
    pub dot_1 : r (out + 1) ≡ 46
    pub minor : r (out + 2) ≡ 48
    pub dot_2 : r (out + 3) ≡ 46
    pub patchlevel : r (out + 4) ≡ 48
    pub newline : r (out + 5) ≡ 10
    pub end : r (out + 6) ≡ 0
    pub kept :
        (a : ℕ)
        → (a < row c p.qbuf) ⊎ (row c p.qbuf + 9 ≤ a)
        → (a < p.buf) ⊎ (p.buf + 27 ≤ a)
        → (a < out) ⊎ (out + 7 ≤ a)
        → r a ≡ m a

module _ (c : Ctx) (p : Places) (out : ℕ) (apart : IsApart c p out) where
  module _ (m : Memory) (lits : HasLiterals p m) (n : ℕ) (word : n < u32_mod)
      (passes : Passes n) where
    abbrev z1 : ℕ
    z1 = less_one n

    abbrev z2 : ℕ
    z2 = less_one (z1 - 1)

    abbrev z3 : ℕ
    z3 = less_one (z2 - 1)

    rooms : (1 ≤ z1) × (1 ≤ z2) × (1 ≤ z3)
    rooms = ground arith

    low_dot : p.dot < row c p.qbuf
    low_dot = omega (arith, apart.literals)

    low_newline : p.newline < row c p.qbuf
    low_newline = omega (arith, apart.literals)

    -- A literal, after a round.
    kept_literal :
        (b v sep lit : ℕ) (r r' : Memory)
        → Round c p b v sep r r'
        → out ≤ b
        → b < out + 5
        → lit < row c p.qbuf
        → r' lit ≡ r lit
    kept_literal b v sep lit r r' d low high h =
        d.kept lit (inl h) (inl (omega (arith, apart.static)))
          (inl (omega (arith, apart.static, apart.caller)))

    -- A byte of the text, after a later round.
    kept_text :
        (b v sep k : ℕ) (r r' : Memory)
        → Round c p b v sep r r'
        → out + k < b
        → b < out + 5
        → r' (out + k) ≡ r (out + k)
    kept_text b v sep k r r' d low high =
        d.kept (out + k) (omega (arith, apart.static, apart.caller))
          (omega (arith, apart.static, apart.caller)) (inl low)

    -- Three rounds leave the text.
    rounds-IsInfo :
        (r1 r2 r3 : Memory)
        → Round c p out 1 p.dot m r1
        → Round c p (out + 1 + 1) 0 p.dot r1 r2
        → Round c p (out + 1 + 1 + 1 + 1) 0 p.newline r2 r3
        → r1 p.dot ≡ 46
        → r2 p.newline ≡ 10
        → IsInfo c p out m r3
    rounds-IsInfo r1 r2 r3 d1 d2 d3 l1 l2 =
        let at_1 : (k : ℕ) → out + k < out + 1 + 1 → r3 (out + k) ≡ r1 (out + k) = λ k h.
          kept_text (out + 1 + 1 + 1 + 1) 0 p.newline k r2 r3 d3 (omega arith) (omega arith)
          ∙ kept_text (out + 1 + 1) 0 p.dot k r1 r2 d2 h (omega arith) in
        let at_2 : (k : ℕ) → out + k < out + 1 + 1 + 1 + 1 → r3 (out + k) ≡ r2 (out + k) =
          λ k h. kept_text (out + 1 + 1 + 1 + 1) 0 p.newline k r2 r3 d3 h (omega arith) in
        let e0 : out + 0 ≡ out = omega arith in
        let e2 : out + 1 + 1 ≡ out + 2 = omega arith in
        let e3 : out + 1 + 1 + 1 ≡ out + 3 = omega arith in
        let e4 : out + 1 + 1 + 1 + 1 ≡ out + 4 = omega arith in
        let e5 : out + 1 + 1 + 1 + 1 + 1 ≡ out + 5 = omega arith in
        let e6 : out + 1 + 1 + 1 + 1 + 2 ≡ out + 6 = omega arith in
        record {
          major = ap r3 (sym e0) ∙ at_1 0 (omega arith) ∙ ap r1 e0 ∙ d1.digit;
          dot_1 = at_1 1 (omega arith) ∙ d1.separator ∙ lits.dot;
          minor = at_2 2 (omega arith) ∙ ap r2 (sym e2) ∙ d2.digit;
          dot_2 = at_2 3 (omega arith) ∙ ap r2 (sym e3) ∙ d2.separator ∙ l1;
          patchlevel = ap r3 (sym e4) ∙ d3.digit;
          newline = ap r3 (sym e5) ∙ d3.separator ∙ l2;
          end = ap r3 (sym e6) ∙ d3.end;
          kept = λ a x y z.
              d3.kept a x y (omega arith)
              ∙ d2.kept a x y (omega arith)
              ∙ d1.kept a x y (omega arith);
        }

    print_text :
        (r : Memory) × (print_numbers c p 0 ((1, p.dot) ∷ (0, p.dot) ∷ (0, p.newline) ∷ []) out z1 m
          ≡ some r)
        × IsInfo c p out m r
    unfolding print_numbers
    print_text =
        let (x, y, z) = rooms in
        let dot = lits.dot in
        let (r1, d1, e1) =
          round c p out apart 0 out z1 1 m (omega arith) x (omega arith) (omega arith) (omega arith)
            p.dot low_dot (λ e. omega (arith, e, dot)) in
        let l1 = kept_literal out 1 p.dot p.dot m r1 d1 (omega arith) (omega arith) low_dot ∙ dot in
        let (r2, d2, e2) =
          round c p out apart 1 (out + 1 + 1) z2 0 r1 (omega arith) y (omega arith) (omega arith)
            (omega arith) p.dot low_dot (λ e. omega (arith, e, l1)) in
        let l2 =
          kept_literal (out + 1 + 1) 0 p.dot p.newline r1 r2 d2 (omega arith) (omega arith)
            low_newline
          ∙ kept_literal out 1 p.dot p.newline m r1 d1 (omega arith) (omega arith) low_newline
          ∙ lits.newline in
        let (r3, d3, e3) =
          round c p out apart 2 (out + 1 + 1 + 1 + 1) z3 0 r2 (omega arith) z (omega arith)
            (omega arith) (omega arith) p.newline low_newline (λ e. omega (arith, e, l2)) in
        (
          r3,
          e1 ((0, p.dot) ∷ (0, p.newline) ∷ []) ∙ e2 ((0, p.newline) ∷ []) ∙ e3 [],
          rounds-IsInfo r1 r2 r3 d1 d2 d3 l1 l2,
        )

-- osKernelGetInfo with a place for the version and a buffer, in a memory where its own objects and seven
-- bytes from the buffer's start on lie apart: if the size of the buffer is at least 7 or even, it answers
-- osOK, gives version 1.0.0 twice, and writes the text "1.0.0" with a line end and a zero, seven bytes, to
-- the buffer, also if the size is 0, 2, 4 or 6. It writes nothing else outside of its own objects.
pub os_kernel_get_info-IsInfo :
    (c : Ctx) (p : Places) (version id_buf id_size : ℕ) (m : Memory)
    → version ≢ null_ptr
    → IsApart c p id_buf
    → HasLiterals p m
    → id_size < u32_mod
    → Passes id_size
    → (r : Memory) × (os_kernel_get_info c p version id_buf id_size m
        ≡ some (Status.ok, some (os_version, os_version), r))
      × IsInfo c p id_buf m r
unfolding os_kernel_get_info
os_kernel_get_info-IsInfo c p version id_buf id_size m v apart lits word passes =
    let (r, e, i) = print_text c p id_buf apart m lits id_size word passes in
    let f : (version == null_ptr) ≡ false = ground arith in
    let g : (id_buf == null_ptr) ≡ false = ground (arith, apart.literals, apart.caller) in
    let h : (id_size == 1) ≡ false = ground arith in
    (r, rw (f, g, h) (ap (printed_info os_version) e), i)
