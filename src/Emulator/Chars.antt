-- ===== src/Emulator/Chars.antt =====
-- The characters that the threads write, and what Core-tb-os.cpp prints of them.
use mathlib.Core.List.{append-nil}
use mathlib.Core.Path.{subst, transport}
use flexpret.Common.{
  ℕ, zero, suc, ◌+◌, ◌/◌, ◌%◌, ◌^◌, ◌<◌, ◌≡◌, ◌≢◌, refl, sym, ap, ◌∙◌, true, false, ◌&&◌,
  Bool-cases, inl, inr, List, [], ◌∷◌, ◌++◌, ◌==◌, if◌then◌else◌, update, length, get_or, arith,
}
use flexpret.Emulator.{
  Line, print_line, Variant, Pins, Bench, io_at, put_char, write_char, watch_gpio, watch_host,
  shift_stages, print_counters, count_cycle, reset_counters,
}
use flexpret.Emulator.Loop.{observe, tb_os}

-- The loop over io_buf[t]: `n` characters from address i on.
abbrev pub print_chars : (ℕ → ℕ) → ℕ → ℕ → List ℕ
print_chars io_buf i zero = []
print_chars io_buf i (suc n) = io_buf i ∷ print_chars io_buf (i + 1) n

-- What is printed of thread t after the test.
abbrev pub thread_output : Bench → ℕ → List ℕ
thread_output b t = print_chars b.io_buf (io_at t 0) (b.io_buf_len t)

-- The character of thread t in a cycle, if it writes one.
unfoldable pub char_of : ℕ → Pins → List ℕ
char_of t p =
    if (p.bus_enable && p.bus_write) && p.bus_addr / 2 ^ 7 == t then p.bus_data % 256 ∷ [] else []

pub length-snoc : {A : Type 0} (xs : List A) (c : A) → length (xs ++ c ∷ []) ≡ length xs + 1
length-snoc [] c = refl
length-snoc (x ∷ xs) c = let rest = length-snoc xs c in omega arith

get_or-snoc_before :
    (xs : List ℕ) (c k : ℕ) → k < length xs → get_or (xs ++ c ∷ []) k 0 ≡ get_or xs k 0
get_or-snoc_before [] c k l = absurd (omega arith)
get_or-snoc_before (x ∷ xs) c zero l = refl
get_or-snoc_before (x ∷ xs) c (suc k) l = get_or-snoc_before xs c k (omega arith)

get_or-snoc_last : (xs : List ℕ) (c : ℕ) → get_or (xs ++ c ∷ []) (length xs) 0 ≡ c
get_or-snoc_last [] c = refl
get_or-snoc_last (x ∷ xs) c = get_or-snoc_last xs c

pub print_chars-lem :
    (f : ℕ → ℕ) (i : ℕ) (xs : List ℕ)
    → ((k : ℕ) → k < length xs → f (i + k) ≡ get_or xs k 0)
    → print_chars f i (length xs) ≡ xs
print_chars-lem f i [] h = refl
print_chars-lem f i (x ∷ xs) h =
    let first : f i ≡ x = subst (λ a. f a ≡ x) (omega arith) (h 0 (omega arith)) in
    λ j.
      first j
      ∷ print_chars-lem f (i + 1) xs
          (λ k l. subst (λ a. f a ≡ get_or xs k 0) (omega arith) (h (suc k) (omega arith))) j

-- The characters xs of thread t are in its buffer and its file.
pub record Holds (b : Bench) (t : ℕ) (xs : List ℕ) : Type 0 where
  pub file : b.tmp_file t ≡ xs
  pub len : b.io_buf_len t ≡ length xs
  pub chars : (k : ℕ) → k < length xs → b.io_buf (io_at t k) ≡ get_or xs k 0

put_char-Holds :
    (t c : ℕ) (b : Bench) (xs : List ℕ) → Holds b t xs → Holds (put_char t c b) t (xs ++ c ∷ [])
put_char-Holds t c b xs h =
    let l = length-snoc xs c in
    record {
      file = ground arith;
      len = ground arith;
      chars = λ k m. elim (Bool-cases (k == length xs)) [
        | inl q ↦
            let e = get_or-snoc_last xs c in
            let n = h.len in
            let r : get_or (xs ++ c ∷ []) k 0 ≡ c =
              subst (λ j. get_or (xs ++ c ∷ []) j 0 ≡ c) (ground arith) e in
            ground arith
        | inr q ↦
            let e = get_or-snoc_before xs c k (ground arith) in
            let n = h.len in let o = h.chars k (ground arith) in ground arith
      ];
    }

put_char-Holds_other :
    (t u c : ℕ) (b : Bench) (xs : List ℕ)
    → u ≢ t
    → b.io_buf_len u + 1 < 4096
    → length xs < 4096
    → Holds b t xs
    → Holds (put_char u c b) t xs
put_char-Holds_other t u c b xs n f g h = record {
  file = ground arith;
  len = ground (arith, h.len);
  chars = λ k m. let e = h.chars k m in ground arith;
}

module _ (p : Pins) (b : Bench) where
  write_char-put :
      (p.bus_enable && p.bus_write) ≡ true
      → write_char tb_os p b ≡ put_char (p.bus_addr / 2 ^ 7) (p.bus_data % 256) b
  unfolding write_char
  write_char-put e = ap (λ w. if w then put_char (p.bus_addr / 2 ^ 7) (p.bus_data % 256) b else b) e

  write_char-none : (p.bus_enable && p.bus_write) ≡ false → write_char tb_os p b ≡ b
  unfolding write_char
  write_char-none e =
      ap (λ w. if w then put_char (p.bus_addr / 2 ^ 7) (p.bus_data % 256) b else b) e

  pub char_of-own :
      (t : ℕ)
      → (p.bus_enable && p.bus_write) ≡ true
      → (p.bus_addr / 2 ^ 7 == t) ≡ true
      → char_of t p ≡ p.bus_data % 256 ∷ []
  unfolding char_of
  char_of-own t e q = ground arith

  char_of-none :
      (t : ℕ)
      → ((p.bus_enable && p.bus_write) && p.bus_addr / 2 ^ 7 == t) ≡ false
      → char_of t p ≡ []
  unfolding char_of
  char_of-none t e = ground arith

  pub write_char-Holds :
      (t : ℕ) (xs : List ℕ)
      → ((p.bus_enable && p.bus_write) ≡ true → b.io_buf_len (p.bus_addr / 2 ^ 7) + 1 < 4096)
      → length xs < 4096
      → Holds b t xs
      → Holds (write_char tb_os p b) t (xs ++ char_of t p)
  write_char-Holds t xs f g h = elim (Bool-cases (p.bus_enable && p.bus_write)) [
    | inl e ↦ elim (Bool-cases (p.bus_addr / 2 ^ 7 == t)) [
      | inl q ↦
          let u : t ≡ p.bus_addr / 2 ^ 7 = ground arith in
          transport (λ i. Holds (sym (write_char-put e) i) t (xs ++ sym (char_of-own t e q) i))
            (transport
              (λ i. Holds (put_char (u i) (p.bus_data % 256) b) t (xs ++ p.bus_data % 256 ∷ []))
              (put_char-Holds t (p.bus_data % 256) b xs h))
      | inr q ↦
          transport
            (λ i.
              Holds (sym (write_char-put e) i) t
                ((sym (append-nil xs) ∙ ap (λ l. xs ++ l) (sym (char_of-none t (ground arith)))) i))
            (put_char-Holds_other t (p.bus_addr / 2 ^ 7) (p.bus_data % 256) b xs (ground arith)
              (f e) g h)
    ]
    | inr e ↦
        transport
          (λ i.
            Holds (sym (write_char-none e) i) t
              ((sym (append-nil xs) ∙ ap (λ l. xs ++ l) (sym (char_of-none t (ground arith)))) i))
          h
  ]

-- The buffers and the files stay.
pub record SameChars (b b' : Bench) : Type 0 where
  io_buf : b'.io_buf ≡ b.io_buf
  io_buf_len : b'.io_buf_len ≡ b.io_buf_len
  tmp_file : b'.tmp_file ≡ b.tmp_file

SameChars-trans : (a b c : Bench) → SameChars a b → SameChars b c → SameChars a c
SameChars-trans a b c p q = record {
  io_buf = q.io_buf ∙ p.io_buf;
  io_buf_len = q.io_buf_len ∙ p.io_buf_len;
  tmp_file = q.tmp_file ∙ p.tmp_file;
}

pub SameChars-Holds :
    (b b' : Bench) (t : ℕ) (xs : List ℕ) → SameChars b b' → Holds b t xs → Holds b' t xs
SameChars-Holds b b' t xs s h = record {
  file = ap (λ f. f t) s.tmp_file ∙ h.file;
  len = ap (λ f. f t) s.io_buf_len ∙ h.len;
  chars = λ k l. ap (λ f. f (io_at t k)) s.io_buf ∙ h.chars k l;
}

module _ (v : Variant) (p : Pins) where
  watch_gpio-SameChars : (n i : ℕ) (b : Bench) → SameChars b (watch_gpio n i p b)
  unfolding watch_gpio
  watch_gpio-SameChars zero i b = record { io_buf = refl; io_buf_len = refl; tmp_file = refl }
  watch_gpio-SameChars (suc n) i b =
      let l = Line.gpio_changed i b.cycle (p.gpio_out i) in
      let line = if p.gpio_out i == b.gpio_prev i then b else print_line l b in
      let next = record line { gpio_prev = update b.gpio_prev i (p.gpio_out i) } in
      SameChars-trans b next (watch_gpio n (i + 1) p next)
        (record { io_buf = ground arith; io_buf_len = ground arith; tmp_file = ground arith })
        (watch_gpio-SameChars n (i + 1) next)

  watch_host-SameChars : (b : Bench) → SameChars b (watch_host p b)
  unfolding watch_host
  watch_host-SameChars b = record {
    io_buf = ground arith;
    io_buf_len = ground arith;
    tmp_file = ground arith;
  }

  print_counters-SameChars : (b : Bench) → SameChars b (print_counters v p b)
  unfolding print_counters
  print_counters-SameChars b = record {
    io_buf = ground arith;
    io_buf_len = ground arith;
    tmp_file = ground arith;
  }

  reset_counters-SameChars : (b : Bench) → SameChars b (reset_counters v p b)
  unfolding reset_counters
  reset_counters-SameChars b = record {
    io_buf = ground arith;
    io_buf_len = ground arith;
    tmp_file = ground arith;
  }

  count_cycle-SameChars : (b : Bench) → SameChars b (count_cycle p b)
  unfolding count_cycle
  count_cycle-SameChars b = record { io_buf = refl; io_buf_len = refl; tmp_file = refl }

  pub observe-SameChars : (b : Bench) → SameChars (write_char v p b) (observe v p b)
  unfolding observe
  observe-SameChars b =
      let w = write_char v p b in
      let g = watch_gpio 4 0 p w in
      let h = watch_host p g in
      let s = shift_stages p h in
      let c = print_counters v p s in
      let n = count_cycle p c in
      let r =
        SameChars-trans c n (reset_counters v p n) (count_cycle-SameChars c)
          (reset_counters-SameChars n) in
      let q = print_counters-SameChars s in
      let x = SameChars-trans w g h (watch_gpio-SameChars 4 0 w) (watch_host-SameChars g) in
      record {
        io_buf = r.io_buf ∙ q.io_buf ∙ x.io_buf;
        io_buf_len = r.io_buf_len ∙ q.io_buf_len ∙ x.io_buf_len;
        tmp_file = r.tmp_file ∙ q.tmp_file ∙ x.tmp_file;
      }
