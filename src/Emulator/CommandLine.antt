-- ===== src/Emulator/CommandLine.antt =====
-- The options of the testbenches' command line. getopt_long and atoi are parameters: the options in their order,
-- and what a text stands for.
use flexpret.Common.{
  ℕ, ◌-◌, ◌%◌, ◌^◌, ◌<◌, ◌≡◌, refl, sym, ap, ◌∙◌, Bool, true, false, ◌&&◌, ◌||◌, Bool-cases, inl,
  inr, Option, none, some, List, [], ◌∷◌, ◌==◌, if◌then◌else◌, arith,
}
use flexpret.Common.Int.{ℤ, pos, negsuc}
use flexpret.State.{null_ptr}

-- What getopt_long answers: 0 for the two flags that it sets itself, or a letter, and optarg, the address of a
-- text or NULL.
pub data Current : Type 0 where
  set_sweep set_trace : Current
  letter : (char optarg : ℕ) → Current

-- The variables that the options set.
pub record Options : Type 0 where
  pub sweep : Bool
  pub trace : Bool
  pub max_cycles : ℕ
  pub ispm_filename : ℕ
  pub dspm_filename : ℕ
  pub vcd : Bool
  pub vcd_filename : ℕ
  pub vcd_start : ℤ

-- The initial values; 1 stands for the address of "trace.vcd".
abbrev pub no_options : Options
no_options = record {
  sweep = false;
  trace = false;
  max_cycles = 0;
  ispm_filename = null_ptr;
  dspm_filename = null_ptr;
  vcd = false;
  vcd_filename = 1;
  vcd_start = pos 0;
}

-- An int as a uint64_t
unfoldable pub to_uint64 : ℤ → ℕ
to_uint64 (pos n) = n % 2 ^ 64
to_uint64 (negsuc n) = (2 ^ 64 - 1 - n) % 2 ^ 64

module _ (atoi : ℕ → ℤ) where
  -- The switch; `none` is the default case, which ends main.
  unfoldable pub set_option : Current → Options → Option Options
  unfolding to_uint64
  set_option Current.set_sweep o = some (record o { sweep = true })
  set_option Current.set_trace o = some (record o { trace = true })
  set_option (Current.letter char optarg) o =
      if char == b'm'
      then some (record o { max_cycles = to_uint64 (atoi optarg) })
      else if char == b'i'
      then some (record o { ispm_filename = optarg })
      else if char == b'd'
      then some (record o { dspm_filename = optarg })
      else if char == b'v'
      then some (record o {
        vcd = true;
        vcd_filename = if optarg == null_ptr then o.vcd_filename else optarg;
      })
      else if char == b's'
      then some (record o { vcd_start = if optarg == null_ptr then o.vcd_start else atoi optarg })
      else none

  -- The loop over the options.
  unfoldable pub parse_options : List Current → Options → Option Options
  unfolding set_option
  parse_options [] o = some o
  parse_options (x ∷ xs) o = elim (set_option x o) [ none ↦ none | some o' ↦ parse_options xs o' ]

-- The letters of the options.
abbrev is_known : Current → Bool
is_known Current.set_sweep = true
is_known Current.set_trace = true
is_known (Current.letter c a) = c == b'm' || c == b'i' || c == b'd' || c == b'v' || c == b's'

unfoldable pub all_known : List Current → Bool
all_known [] = true
all_known (x ∷ xs) = is_known x && all_known xs

to_uint64-bound : (n : ℤ) → to_uint64 n < 2 ^ 64
unfolding to_uint64
to_uint64-bound (pos n) = omega arith
to_uint64-bound (negsuc n) = omega arith

module _ (atoi : ℕ → ℤ) where
  -- The last --maxcycles, or m.
  unfoldable pub last_max : ℕ → List Current → ℕ
  last_max m [] = m
  last_max m (Current.letter c a ∷ xs) = last_max (if c == b'm' then to_uint64 (atoi a) else m) xs
  last_max m (_ ∷ xs) = last_max m xs

  pub last_max-bound : (m : ℕ) (xs : List Current) → m < 2 ^ 64 → last_max m xs < 2 ^ 64
  unfolding last_max
  last_max-bound m [] h = h
  last_max-bound m (Current.set_sweep ∷ xs) h = last_max-bound m xs h
  last_max-bound m (Current.set_trace ∷ xs) h = last_max-bound m xs h
  last_max-bound m (Current.letter c a ∷ xs) h =
      let b = to_uint64-bound (atoi a) in
      last_max-bound (if c == b'm' then to_uint64 (atoi a) else m) xs (ground arith)

  -- What a known option sets.
  set_option-known :
      (x : Current) (o : Options)
      → is_known x ≡ true
      → (o' : Options) × (set_option atoi x o ≡ some o')
        × (last_max o'.max_cycles [] ≡ last_max o.max_cycles (x ∷ []))
  unfolding set_option last_max
  set_option-known Current.set_sweep o k = (_, refl, refl)
  set_option-known Current.set_trace o k = (_, refl, refl)
  set_option-known (Current.letter c a) o k = elim (Bool-cases (c == b'm')) [
    | inl e ↦ (record o { max_cycles = to_uint64 (atoi a) }, rw e refl, rw e refl)
    | inr m ↦ elim (Bool-cases (c == b'i')) [
      | inl e ↦ (record o { ispm_filename = a }, rw (m, e) refl, rw m refl)
      | inr i ↦ elim (Bool-cases (c == b'd')) [
        | inl e ↦ (record o { dspm_filename = a }, rw (m, i, e) refl, rw m refl)
        | inr d ↦ elim (Bool-cases (c == b'v')) [
          | inl e ↦ (
            record o { vcd = true; vcd_filename = if a == null_ptr then o.vcd_filename else a },
            rw (m, i, d, e) refl,
            rw m refl,
          )
          | inr v ↦ (
            record o { vcd_start = if a == null_ptr then o.vcd_start else atoi a },
            (let s : (c == b's') ≡ true = ground arith in rw (m, i, d, v, s) refl),
            rw m refl,
          )
        ]
      ]
    ]
  ]

  set_option-unknown : (x : Current) (o : Options) → is_known x ≡ false → set_option atoi x o ≡ none
  unfolding set_option
  set_option-unknown Current.set_sweep o k = ground arith
  set_option-unknown Current.set_trace o k = ground arith
  set_option-unknown (Current.letter c a) o k = ground arith

  last_max-step :
      (x : Current) (m : ℕ) (xs : List Current)
      → last_max m (x ∷ xs) ≡ last_max (last_max m (x ∷ [])) xs
  unfolding last_max
  last_max-step Current.set_sweep m xs = refl
  last_max-step Current.set_trace m xs = refl
  last_max-step (Current.letter c a) m xs = refl

  -- The rest of the loop after an option.
  abbrev then_parse : List Current → Option Options → Option Options
  then_parse xs none = none
  then_parse xs (some o) = parse_options atoi xs o

  -- The options, if all are known.
  pub parse_options-known :
      (xs : List Current) (o : Options)
      → all_known xs ≡ true
      → (o' : Options) × (parse_options atoi xs o ≡ some o')
        × (o'.max_cycles ≡ last_max o.max_cycles xs)
  unfolding parse_options all_known last_max
  parse_options-known [] o k = (o, refl, refl)
  parse_options-known (x ∷ xs) o k =
      let a : is_known x ≡ true = ground arith in
      let b : all_known xs ≡ true = ground arith in
      let (o1, p, m) = set_option-known x o a in
      let (o2, q, n) = parse_options-known xs o1 b in
      (
        o2,
        ap (then_parse xs) p ∙ q,
        n ∙ ap (λ j. last_max j xs) m ∙ sym (last_max-step x o.max_cycles xs),
      )

  pub parse_options-unknown :
      (xs : List Current) (o : Options) → all_known xs ≡ false → parse_options atoi xs o ≡ none
  unfolding parse_options all_known
  parse_options-unknown [] o k = ground arith
  parse_options-unknown (x ∷ xs) o k = elim (Bool-cases (is_known x)) [
    | inr u ↦ ap (then_parse xs) (set_option-unknown x o u)
    | inl e ↦
        let (o1, p, m) = set_option-known x o e in
        let b : all_known xs ≡ false = ground arith in
        ap (then_parse xs) p ∙ parse_options-unknown xs o1 b
  ]
