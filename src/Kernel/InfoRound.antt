-- ===== src/Kernel/InfoRound.antt =====
-- One round of the loop of osKernelGetInfo: a digit, a separator and a zero.
use flexpret.Common.{
  ℕ, ◌+◌, ◌-◌, ◌*◌, ◌<◌, ◌≤◌, ◌≡◌, ◌≢◌, ◌⊎◌, inl, refl, sym, ap, ◌∙◌, true, false, leb, ◌==◌, some,
  List, ◌∷◌, arith,
}
use flexpret.State.{Ctx, null_ptr}
use flexpret.Strings.{Memory, strlen, strncpy, copy_text}
use flexpret.Strings.Hex.{row, digit, itoa_hex_removing_ldz}
use flexpret.Strings.Short.{one_digit}
use flexpret.Strings.Length.{IsText, strlen-IsText}
use flexpret.Kernel.Info.{Places, Printed, less_one, print_number, print_numbers}

-- Memory `r` after one character, `ch`, and a zero are written at `dest`.
record Put (dest ch : ℕ) (m r : Memory) : Type 0 where
  char : r dest ≡ ch
  end : r (dest + 1) ≡ 0
  outside : (a : ℕ) → (a < dest) ⊎ (dest + 1 < a) → r a ≡ m a

strncpy-Put :
    (dest src : ℕ) (m : Memory)
    → dest ≢ null_ptr
    → m src ≢ 0
    → Put dest (m src) m (strncpy dest src 1 m).1
unfolding strncpy copy_text
strncpy-Put dest src m d n =
    let e : (dest == null_ptr) ≡ false = ground arith in
    let f : (m src == 0) ≡ false = ground arith in
    rw (e, f) (record { char = ground arith; end = ground arith; outside = λ a h. ground arith })

-- The objects of the function lie apart, the literals below the static data and these below the stack,
-- and so does a region of seven bytes of the caller, on either side of the array buf.
pub record IsApart (c : Ctx) (p : Places) (out : ℕ) : Type 0 where
  pub literals : (0 < p.dot) × (p.dot + 1 < p.newline) × (p.newline + 1 < row c p.qbuf)
  pub static : row c p.qbuf + 9 ≤ p.buf
  pub caller : ((row c p.qbuf + 9 ≤ out) × (out + 7 ≤ p.buf)) ⊎ (p.buf + 27 ≤ out)

-- The literals are "." and "\n".
pub record HasLiterals (p : Places) (m : Memory) : Type 0 where
  pub dot : m p.dot ≡ 46
  pub newline : m p.newline ≡ 10

module _ (c : Ctx) (p : Places) where
  -- One round: a digit, a separator and a zero at b, and nothing else outside of the function's buffers.
  pub record Round (b v sep : ℕ) (m r : Memory) : Type 0 where
    pub digit : r b ≡ digit v
    pub separator : r (b + 1) ≡ m sep
    pub end : r (b + 2) ≡ 0
    pub kept :
        (a : ℕ)
        → (a < row c p.qbuf) ⊎ (row c p.qbuf + 9 ≤ a)
        → (a < p.buf) ⊎ (p.buf + 27 ≤ a)
        → (a < b) ⊎ (b + 2 < a)
        → r a ≡ m a

module _ (c : Ctx) (p : Places) (out : ℕ) (apart : IsApart c p out) where
  module _ (i b z v : ℕ) (m : Memory) (early : i < 3) (room : 1 ≤ z) (small : v < 16)
      (low : out ≤ b) (high : b < out + 5) where
    abbrev buf_i : ℕ
    buf_i = p.buf + 9 * i

    abbrev at : ℕ
    at = row c p.qbuf + 7

    abbrev texted : Memory
    texted = (itoa_hex_removing_ldz c p.qbuf v m).1

    abbrev kept_copy : Memory
    kept_copy = (strncpy buf_i at 1 texted).1

    abbrev printed : Memory
    printed = (strncpy b buf_i 1 kept_copy).1

    digit-nonzero : digit v ≢ 0
    digit-nonzero e = ground arith

    texted-IsText : IsText texted at 1
    texted-IsText =
        let (t, d, e, o) = one_digit c p.qbuf v m small in
        record {
          chars = λ j h f.
              let q : at + j ≡ at = omega arith in digit-nonzero (sym d ∙ ap texted (sym q) ∙ f);
          end = let q : at + 1 ≡ row c p.qbuf + 8 = omega arith in ap texted q ∙ e;
        }

    digit-Put : Put buf_i (digit v) texted kept_copy
    digit-Put =
        let (t, d, e, o) = one_digit c p.qbuf v m small in
        let q =
          strncpy-Put buf_i at texted (omega (arith, apart.literals))
            (λ f. digit-nonzero (sym d ∙ f)) in
        record { char = q.char ∙ d; end = q.end; outside = q.outside }

    number-Put : Put b (digit v) kept_copy printed
    number-Put =
        let q =
          strncpy-Put b buf_i kept_copy (omega (arith, apart.literals, apart.caller))
            (λ f. digit-nonzero (sym digit-Put.char ∙ f)) in
        record { char = q.char ∙ digit-Put.char; end = q.end; outside = q.outside }

    length_one : strlen 9 texted (itoa_hex_removing_ldz c p.qbuf v m).0 ≡ some 1
    length_one =
        let (t, d, e, o) = one_digit c p.qbuf v m small in
        ap (strlen 9 texted) t ∙ strlen-IsText 9 1 texted at (omega arith) texted-IsText

    print_number-more : print_number c p i v b z m ≡ some (Printed.more (b + 1) (z - 1) printed)
    unfolding print_number
    print_number-more =
        let (t, d, e, o) = one_digit c p.qbuf v m small in
        let enough : leb 1 z ≡ true = ground arith in rw (print_number, length_one, enough, t) refl

    -- The bytes outside of the function's buffers and of the digit and its zero.
    printed-kept :
        (a : ℕ)
        → (a < row c p.qbuf) ⊎ (row c p.qbuf + 9 ≤ a)
        → (a < p.buf) ⊎ (p.buf + 27 ≤ a)
        → (a < b) ⊎ (b + 1 < a)
        → printed a ≡ m a
    printed-kept a x y z =
        let (t, d, e, o) = one_digit c p.qbuf v m small in
        number-Put.outside a z ∙ digit-Put.outside a (omega arith) ∙ o a x

    module _ (sep : ℕ) (below : sep < row c p.qbuf) (real : m sep ≢ 0) where
      abbrev separated : Memory
      separated = (strncpy (b + 1) sep 1 printed).1

      same_separator : printed sep ≡ m sep
      same_separator =
          printed-kept sep (inl below) (inl (omega (arith, apart.static)))
            (inl (omega (arith, apart.static, apart.caller)))

      separator-Put : Put (b + 1) (m sep) printed separated
      separator-Put =
          let q =
            strncpy-Put (b + 1) sep printed (omega arith) (λ f. real (sym same_separator ∙ f)) in
          record { char = q.char ∙ same_separator; end = q.end; outside = q.outside }

      separated-Round : Round c p b v sep m separated
      separated-Round = record {
        digit = separator-Put.outside b (inl (omega arith)) ∙ number-Put.char;
        separator = separator-Put.char;
        end = let q : b + 1 + 1 ≡ b + 2 = omega arith in ap separated (sym q) ∙ separator-Put.end;
        kept = λ a x y z. separator-Put.outside a (omega arith) ∙ printed-kept a x y (omega arith);
      }

      print_numbers-Round :
          (vs : List (ℕ × ℕ))
          → print_numbers c p i ((v, sep) ∷ vs) b z m
            ≡ print_numbers c p (i + 1) vs (b + 1 + 1) (less_one (z - 1)) separated
      unfolding print_numbers
      print_numbers-Round vs = rw (print_numbers, print_number-more) refl

    -- One round in full.
    pub round :
        (sep : ℕ)
        → sep < row c p.qbuf
        → m sep ≢ 0
        → (r : Memory) × Round c p b v sep m r
          × ((vs : List (ℕ × ℕ))
              → print_numbers c p i ((v, sep) ∷ vs) b z m
                ≡ print_numbers c p (i + 1) vs (b + 1 + 1) (less_one (z - 1)) r)
    round sep below real = (
      separated sep below real,
      separated-Round sep below real,
      print_numbers-Round sep below real,
    )
