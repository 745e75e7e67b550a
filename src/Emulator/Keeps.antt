-- ===== src/Emulator/Keeps.antt =====
-- What each cycle of the simulation keeps, a whole test keeps.
use mathlib.Core.Path.{subst}
use flexpret.Common.{
  ℕ, zero, suc, ◌+◌, ◌<◌, ◌≡◌, ◌^◌, refl, Bool, true, false, not, ◌&&◌, ◌||◌, Option, none, some,
  ◌==◌, ltb, if◌then◌else◌, arith,
}
use flexpret.Emulator.{Core, Variant, Bench}
use flexpret.Emulator.Loop.{round, simulate}
use flexpret.Emulator.Verdict.{Returns, simulate-Returns}

-- What holds of a result, if there is one.
AtResult : (Bench → Type 0) → Option Bench → Type 0
AtResult P none = ℕ
AtResult P (some b) = P b

if-AtResult :
    (P : Bench → Type 0) (t : Bool) (x y : Option Bench)
    → (t ≡ true → AtResult P x)
    → AtResult P y
    → AtResult P (if t then x else y)
if-AtResult P true x y p q = p refl
if-AtResult P false x y p q = q

module _ (v : Variant) (core : Core) (max_cycles : ℕ) (P : Bench → Type 0) where
  -- What every cycle below the limit keeps, the loop keeps.
  simulate-keeps :
      ((b : Bench) → b.cycle < max_cycles → P b → P (round v core b))
      → 0 < max_cycles
      → (fuel : ℕ) (b : Bench) → P b
      → AtResult P (simulate v core max_cycles fuel b)
  unfolding simulate AtResult
  simulate-keeps k l zero b h = 0
  simulate-keeps k l (suc fuel) b h =
      if-AtResult P (not b.done && (max_cycles == 0 || ltb b.cycle max_cycles)) _ _
        (λ t. simulate-keeps k l fuel (round v core b) (k b (ground arith) h)) h

  -- A test that starts n cycles below the limit ends, with what its cycles keep.
  pub simulate-kept :
      ((b : Bench) → b.cycle < max_cycles → P b → P (round v core b))
      → (n fuel : ℕ) (b : Bench) → P b
      → b.done ≡ false
      → 0 < max_cycles
      → b.cycle + n ≡ max_cycles
      → max_cycles < 2 ^ 64
      → n < fuel
      → (b' : Bench) × (simulate v core max_cycles fuel b ≡ some b') × P b'
  unfolding Returns AtResult
  simulate-kept k n fuel b h d l e w m =
      let (b', s, x, y, z) = simulate-Returns v core max_cycles n fuel b d l e w m in
      (b', s, subst (AtResult P) s (simulate-keeps k l fuel b h))
