-- ===== src/Emulator/Written.antt =====
-- What a test prints of its threads: the characters that they have written.
use mathlib.Core.Path.{subst, transport}
use flexpret.Common.{
  ℕ, zero, suc, ◌+◌, ◌-◌, ◌==◌, ◌/◌, ◌%◌, ◌^◌, ◌<◌, ◌≤◌, ◌≡◌, sym, ap, ◌∙◌, Bool, true, false, ◌&&◌,
  some, List, Bool-cases, if◌then◌else◌, leb, inl, inr, [], ◌∷◌, ◌++◌, length, length-append,
  get_or, arith,
}
use flexpret.Emulator.{Core, Pins, Bench, io_at, write_char, drive_interrupt}
use flexpret.Emulator.Loop.{pins_at, round, simulate, tb_os}
use flexpret.Emulator.Verdict.{Proceeds, round-Proceeds}
use flexpret.Emulator.Chars.{
  thread_output, print_chars, print_chars-lem, char_of, char_of-own, length-snoc, Holds,
  write_char-Holds, SameChars-Holds, observe-SameChars,
}
use flexpret.Emulator.Keeps.{simulate-kept}

-- The characters of thread t in the n cycles from `first` on.
pub written : Core → ℕ → ℕ → ℕ → List ℕ
written core t first zero = []
written core t first (suc n) = written core t first n ++ char_of t (pins_at core (first + n))

-- The core writes for eight threads, in n cycles fewer than 4096 characters for each.
pub record FewChars (core : Core) (first n : ℕ) : Type 0 where
  pub threads :
      (k : ℕ)
      → ((pins_at core k).bus_enable && (pins_at core k).bus_write) ≡ true
      → (pins_at core k).bus_addr / 2 ^ 7 < 8
  pub few : (t : ℕ) → t < 8 → length (written core t first n) < 4096

thread_output-Holds : (b : Bench) (t : ℕ) (xs : List ℕ) → Holds b t xs → thread_output b t ≡ xs
thread_output-Holds b t xs h =
    ap (print_chars b.io_buf (io_at t 0)) h.len
    ∙ print_chars-lem b.io_buf (io_at t 0) xs
        (λ k l. subst (λ a. b.io_buf a ≡ get_or xs k 0) (omega arith) (h.chars k l))

if-small :
    (b : Bool) (xs ys : List ℕ) → length xs ≤ 1 → length ys ≤ 1 → length (if b then xs else ys) ≤ 1
if-small true xs ys p q = p
if-small false xs ys p q = q

length-char_of : (t : ℕ) (p : Pins) → length (char_of t p) ≤ 1
unfolding char_of
length-char_of t p =
    if-small ((p.bus_enable && p.bus_write) && p.bus_addr / 2 ^ 7 == t) (p.bus_data % 256 ∷ []) []
      (omega arith) (omega arith)

module _ (core : Core) (t first : ℕ) where
  written-more :
      (m n : ℕ) → m ≤ n → length (written core t first m) ≤ length (written core t first n)
  unfolding written
  written-more m zero l =
      subst (λ x. length (written core t first x) ≤ 0) {x = 0} {y = m} (omega arith) (omega arith)
  written-more m (suc n) l = elim (Bool-cases (leb m n)) [
    | inl e ↦
        let rest = written-more m n (ground arith) in
        let one = length-append (written core t first n) (char_of t (pins_at core (first + n))) in
        omega arith
    | inr e ↦
        let q : m ≡ suc n = ground arith in
        subst (λ x. length (written core t first m) ≤ length (written core t first x)) q
          (omega arith)
  ]

  -- A cycle has at most one character.
  pub written-bound : (n : ℕ) → length (written core t first n) ≤ n
  unfolding written
  written-bound zero = omega arith
  written-bound (suc n) =
      let p = pins_at core (first + n) in
      omega (
        arith,
        written-bound n,
        length-append (written core t first n) (char_of t p),
        length-char_of t p,
      )

  -- One cycle more.
  written-next :
      (cycle : ℕ)
      → first ≤ cycle
      → written core t first (cycle + 1 - first)
        ≡ written core t first (cycle - first) ++ char_of t (pins_at core cycle)
  unfolding written
  written-next cycle l =
      let m = cycle - first in
      let e : cycle + 1 - first ≡ suc m = omega arith in
      let k : first + m ≡ cycle = omega arith in
      ap (written core t first) e ∙ ap (λ j. written core t first m ++ char_of t (pins_at core j)) k

module _ (core : Core) (first n : ℕ) (h : FewChars core first n) where
  -- After the cycles from `first` on, all characters are there.
  record Logged (b : Bench) : Type 0 where
    since : first ≤ b.cycle
    logs : (t : ℕ) → t < 8 → Holds b t (written core t first (b.cycle - first))

  -- There is room for the character of a cycle.
  has_room :
      (b : Bench)
      → b.cycle < first + n
      → Logged b
      → let p = pins_at core b.cycle in
        (p.bus_enable && p.bus_write) ≡ true → b.io_buf_len (p.bus_addr / 2 ^ 7) + 1 < 4096
  has_room b l g q =
      let p = pins_at core b.cycle in
      let t = p.bus_addr / 2 ^ 7 in
      let u = h.threads b.cycle q in
      let m = b.cycle - first in
      let e = written-next core t first b.cycle g.since in
      let own = char_of-own p b t q (ground arith) in
      let more =
        ap length (e ∙ ap (λ x. written core t first m ++ x) own)
        ∙ length-snoc (written core t first m) (p.bus_data % 256) in
      omega (
        arith,
        more,
        (g.logs t u).len,
        written-more core t first (b.cycle + 1 - first) n (omega (arith, g.since)),
        h.few t u,
      )

  round-Logged :
      (b : Bench)
      → b.cycle < first + n
      → first + n < 2 ^ 64
      → Logged b
      → Logged (round tb_os core b)
  unfolding Proceeds round
  round-Logged b l w g =
      let p = pins_at core b.cycle in
      let d = drive_interrupt core b in
      let m = b.cycle - first in
      let (c, _, _) = round-Proceeds tb_os core 0 b in
      let c' : (round tb_os core b).cycle ≡ b.cycle + 1 = omega arith in
      record {
        since = omega (arith, c', g.since);
        logs = λ t u.
            let old = g.logs t u in
            let xs = written core t first m in
            let few : length xs < 4096 =
              omega (arith, written-more core t first m n (omega arith), h.few t u) in
            let now =
              write_char-Holds p d t xs (has_room b l g) few
                (record { file = old.file; len = old.len; chars = old.chars }) in
            let e =
              ap (λ k. written core t first (k - first)) c'
              ∙ written-next core t first b.cycle g.since in
            transport (λ i. Holds (round tb_os core b) t (sym e i))
              (SameChars-Holds (write_char tb_os p d) (round tb_os core b) t (xs ++ char_of t p)
                (observe-SameChars tb_os p d) now);
      }

  start-Logged :
      (b : Bench)
      → b.cycle ≡ first
      → ((t : ℕ) → t < 8 → (b.io_buf_len t ≡ 0) × (b.tmp_file t ≡ []))
      → Logged b
  unfolding written
  start-Logged b e s = record {
    since = omega arith;
    logs = λ t u.
        let (z, f) = s t u in
        let zero_cycles : b.cycle - first ≡ 0 = omega arith in
        transport (λ i. Holds b t (written core t first (sym zero_cycles i)))
          (record { file = f; len = z; chars = λ k l. absurd (omega arith) });
  }

  -- A test of Core-tb-os.cpp as in run_test-verdict, with empty buffers and files, of a core that writes for eight
  -- threads and in n cycles fewer than 4096 characters for each: it ends, and what is printed then for each
  -- thread is what its file holds, the characters that the thread has written, in their order.
  pub simulate-written :
      (max_cycles fuel : ℕ) (b : Bench)
      → b.cycle ≡ first
      → ((t : ℕ) → t < 8 → (b.io_buf_len t ≡ 0) × (b.tmp_file t ≡ []))
      → b.done ≡ false
      → 0 < max_cycles
      → first + n ≡ max_cycles
      → max_cycles < 2 ^ 64
      → n < fuel
      → (b' : Bench) × (simulate tb_os core max_cycles fuel b ≡ some b')
        × ((t : ℕ)
            → t < 8
            → (thread_output b' t ≡ written core t first (b'.cycle - first))
              × (b'.tmp_file t ≡ written core t first (b'.cycle - first)))
  simulate-written max_cycles fuel b e s d l q w m =
      let (b', r, g) =
        simulate-kept tb_os core max_cycles Logged
          (λ a u g. round-Logged a (omega arith) (omega arith) g) n fuel b (start-Logged b e s) d l
          (omega arith) w m in
      (
        b',
        r,
        λ t u.
            let o = g.logs t u in
            (thread_output-Holds b' t (written core t first (b'.cycle - first)) o, o.file),
      )
