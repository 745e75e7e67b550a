-- ===== src/Tmodes/Modes.antt =====
-- What set_thread_mode does to the modes of the harts, as read by get_tmodes.
use flexpret.Common.{
  ℕ, zero, suc, ◌<◌, ◌≡◌, refl, ap, ◌∙◌, some, [], ◌∷◌, set, get_or, get_or-set_self, set-set,
  arith,
}
use flexpret.State.{System, Status}
use flexpret.Tmodes.{get_tmodes, switch_mode, set_thread_mode}
use flexpret.Tmodes.Fields.{
  field, make_soft, make_hard, make_zombie, make_active, set_high, clear_high, set_low, clear_low,
}

-- The mode of hart i.
unfoldable pub tmode_of : ℕ → System → ℕ
tmode_of i s = get_or (get_tmodes s.tmodes) i 0

-- The meaning of the eight requests: a full mode is taken as it is, the other four change one of the
-- two flags and keep the other.
unfoldable pub requested : ℕ → ℕ → ℕ
requested tmode old =
    get_or (0 ∷ 1 ∷ 2 ∷ 3 ∷ make_hard old ∷ make_soft old ∷ make_active old ∷ make_zombie old ∷ [])
      tmode old

module _ (tid : ℕ) (hart : tid < 8) (w : ℕ) where
  -- Two changes, one after the other.
  then_change :
      (v u : ℕ) (f g : ℕ → ℕ)
      → get_tmodes v ≡ set (get_tmodes w) tid (f (field tid w))
      → get_tmodes u ≡ set (get_tmodes v) tid (g (field tid v))
      → get_tmodes u ≡ set (get_tmodes w) tid (g (f (field tid w)))
  then_change v u f g p q =
      q
      ∙ ap (λ m. set m tid (g (get_or m tid 0))) p
      ∙ set-set (get_tmodes w) tid (f (field tid w)) _
      ∙ ap (λ m. set (get_tmodes w) tid (g m))
          (get_or-set_self (get_tmodes w) tid (f (field tid w)) 0 hart)

  full : {m k : ℕ} → m ≡ k → set (get_tmodes w) tid m ≡ set (get_tmodes w) tid k
  full e = ap (set (get_tmodes w) tid) e

  -- The register after the switch.
  pub switch_mode-requested :
      (tmode : ℕ)
      → tmode < 8
      → get_tmodes (switch_mode tid tmode w)
        ≡ set (get_tmodes w) tid (requested tmode (field tid w))
  unfolding switch_mode requested
  switch_mode-requested zero h =
      then_change _ _ make_hard make_active (clear_high tid w) (clear_low tid _)
      ∙ full (omega arith)
  switch_mode-requested (suc zero) h =
      then_change _ _ make_hard make_zombie (clear_high tid w) (set_low tid _) ∙ full (omega arith)
  switch_mode-requested (suc (suc zero)) h =
      then_change _ _ make_soft make_active (set_high tid w) (clear_low tid _) ∙ full (omega arith)
  switch_mode-requested (suc (suc (suc zero))) h =
      then_change _ _ make_soft make_zombie (set_high tid w) (set_low tid _) ∙ full (omega arith)
  switch_mode-requested (suc (suc (suc (suc zero)))) h = clear_high tid w
  switch_mode-requested (suc (suc (suc (suc (suc zero))))) h = set_high tid w
  switch_mode-requested (suc (suc (suc (suc (suc (suc zero)))))) h = clear_low tid w
  switch_mode-requested (suc (suc (suc (suc (suc (suc (suc zero))))))) h = set_low tid w
  switch_mode-requested (suc (suc (suc (suc (suc (suc (suc (suc n)))))))) h = absurd (omega arith)

-- For every hart and each of the eight requests set_thread_mode succeeds, the hart's mode becomes the
-- requested one, and no other hart's mode and nothing else in the system changes.
pub set_thread_mode_lem :
    (tid tmode : ℕ) (s : System)
    → tid < 8
    → tmode < 8
    → (s' : System) × (set_thread_mode tid tmode s ≡ some (Status.ok, s'))
      × (get_tmodes s'.tmodes ≡ set (get_tmodes s.tmodes) tid (requested tmode (tmode_of tid s)))
      × (s' ≡ record s { tmodes = s'.tmodes })
unfolding set_thread_mode tmode_of
set_thread_mode_lem tid tmode s p q = (
  record s { tmodes = switch_mode tid tmode s.tmodes },
  refl,
  switch_mode-requested tid p s.tmodes tmode q,
  refl,
)
