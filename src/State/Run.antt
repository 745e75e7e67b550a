-- ===== src/State/Run.antt =====
-- Code that changes the state of the system, as a monad: `none` means that the rounds of a wait ran
-- out before the wait was over.
use flexpret.Common.{Option, none, some}
use flexpret.State.{System}

abbrev pub M : Type 0 → Type 0
M A = System → Option (A × System)

abbrev pub pure : {A : Type 0} → A → M A
pure a s = some (a, s)

infixl 5 ◌>>=◌ ◌>>◌
abbrev pub ◌>>=◌ : {A B : Type 0} → M A → (A → M B) → M B
◌>>=◌ m f s = elim (m s) [ none ↦ none | some (a, s') ↦ f a s' ]

-- A status that the caller drops.
abbrev pub ◌>>◌ : {A B : Type 0} → M A → M B → M B
m >> k = m >>= λ _. k

abbrev pub modify : (System → System) → M (Unit {0})
modify f s = some (tt, f s)
