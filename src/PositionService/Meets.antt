-- ===== src/PositionService/Meets.antt =====
-- When a position meets the criteria of `auto_close_positions_by_criteria`.
use autr_back.Prelude.{
  ℕ, ◌⊎◌, Bool-cases, ◌≡◌, refl, ◌==◌, Bool, true, false, inl, inr, Option, none, some, List, [],
  ◌∷◌,
}
use autr_back.Prelude.Int.{ℤ, leb_ℤ}
use autr_back.Float.Core.{Float}
use autr_back.PositionService.Derived.{Derived}
use autr_back.PositionService.Criteria.{
  CloseReason, stop_loss, take_profit, max_days, Criteria, loss_due, profit_due, days_due,
  close_reason,
}

-- A test of an optional bound, against what it means.
bound_met :
    {A : Type 0} (g : A → Bool) (o : Option A)
    → ((elim o as (λ _. Bool) [ none ↦ false | some m ↦ g m ]) ≡ true)
        × ((m : A) × (o ≡ some m) × (g m ≡ true))
      ⊎ ((elim o as (λ _. Bool) [ none ↦ false | some m ↦ g m ]) ≡ false)
        × (¬ ((m : A) × (o ≡ some m) × (g m ≡ true)))
bound_met g none = inr (refl, λ (m, e, h). absurd (cc e))
bound_met g (some m) = elim (Bool-cases (g m)) [
  | inl e ↦ inl (e, (m, refl, e))
  | inr e ↦ inr (e, λ (m', e', h). cc (e, e', h))
]

module _ {F : Type 0} ⦃f : Float F⦄ (c : Criteria F) (p : Derived F) where
  -- The three criteria, each where it is given.
  abbrev pub LossMet : Type 0
  LossMet =
      (m : F) × (c.max_loss_percent ≡ some m)
      × (f.le p.position.unrealized_pnl_percent (f.neg (f.abs m)) ≡ true)

  abbrev pub ProfitMet : Type 0
  ProfitMet =
      (m : F) × (c.min_profit_percent ≡ some m) × (f.le m p.position.unrealized_pnl_percent ≡ true)

  abbrev pub DaysMet : Type 0
  DaysMet = (m : ℤ) × (c.max_days_open ≡ some m) × (leb_ℤ m p.days_open_or_held ≡ true)

  -- The reason is the first criterion that is met, and there is none just where none is met.
  abbrev pub Meets : Option (CloseReason F) → Type 0
  Meets none = (¬ LossMet) × (¬ ProfitMet) × (¬ DaysMet)
  Meets (some (stop_loss shown)) = LossMet
  Meets (some (take_profit shown)) = (¬ LossMet) × ProfitMet
  Meets (some (max_days days)) =
      (¬ LossMet) × (¬ ProfitMet) × DaysMet × (days ≡ p.days_open_or_held)

  loss_due-LossMet :
      ((loss_due c p.position.unrealized_pnl_percent ≡ true) × LossMet)
      ⊎ ((loss_due c p.position.unrealized_pnl_percent ≡ false) × ¬ LossMet)
  loss_due-LossMet =
      bound_met (λ m. f.le p.position.unrealized_pnl_percent (f.neg (f.abs m))) c.max_loss_percent

  profit_due-ProfitMet :
      ((profit_due c p.position.unrealized_pnl_percent ≡ true) × ProfitMet)
      ⊎ ((profit_due c p.position.unrealized_pnl_percent ≡ false) × ¬ ProfitMet)
  profit_due-ProfitMet =
      bound_met (λ m. f.le m p.position.unrealized_pnl_percent) c.min_profit_percent

  days_due-DaysMet :
      ((days_due c p.days_open_or_held ≡ true) × DaysMet)
      ⊎ ((days_due c p.days_open_or_held ≡ false) × ¬ DaysMet)
  days_due-DaysMet = bound_met (λ m. leb_ℤ m p.days_open_or_held) c.max_days_open

  pub close_reason-Meets : Meets (close_reason c p)
  unfolding close_reason
  close_reason-Meets = elim loss_due-LossMet [
    | inl (e, met) ↦ rw (close_reason, e) met
    | inr (e, no_loss) ↦ elim profit_due-ProfitMet [
      | inl (e', met) ↦ rw (close_reason, e, e') (no_loss, met)
      | inr (e', no_profit) ↦ elim days_due-DaysMet [
        | inl (e'', met) ↦ rw (close_reason, e, e', e'') (no_loss, no_profit, met, refl)
        | inr (e'', no_days) ↦ rw (close_reason, e, e', e'') (no_loss, no_profit, no_days)
      ]
    ]
  ]

module _ {F : Type 0} ⦃f : Float F⦄ (c : Criteria F) where
  -- No row of the id meets a criterion.
  abbrev pub Undue : ℕ → List (Derived F) → Type 0
  Undue j [] = Unit
  Undue j (p ∷ ps) = (Meets c p none ⊎ ((p.position.id == j) ≡ false)) × Undue j ps

  pub Meets-once : (p : Derived F) (why : CloseReason F) → Meets c p none → Meets c p (some why) → ⊥
  Meets-once p (stop_loss x) (l, q, d) met = l met
  Meets-once p (take_profit x) (l, q, d) met = q met.1
  Meets-once p (max_days k) (l, q, d) met = d met.2
