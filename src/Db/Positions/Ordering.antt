-- ===== src/Db/Positions/Ordering.antt =====
-- `get_positions` against its query: the WHERE clause, ORDER BY and LIMIT.
use mathlib.Core.Path.{fun_ext}
use autr_back.Prelude.{
  ℕ, suc, ◌≡◌, ◌↔◌, ◌⊎◌, inl, inr, refl, subst, Bool, true, false, ◌&&◌, Bool-cases, Option, none,
  some, String, str_eq, eq_iff, filter, if◌then◌else◌, arith,
}
use autr_back.Float.Core.{Float}
use autr_back.Db.Rows.{Status, opened, closed, same_status, Position, Db}
use autr_back.Db.Query.{Pages, page-Pages}
use autr_back.Db.Positions.{order_key, selected, get_positions}

same_status_iff : (a b : Status) → (same_status a b ≡ true) ↔ (a ≡ b)
same_status_iff opened opened = (λ h. refl, λ h. refl)
same_status_iff closed closed = (λ h. refl, λ h. refl)
same_status_iff opened closed = (λ h. cc h, λ h. cc h)
same_status_iff closed opened = (λ h. cc h, λ h. cc h)

both_true : (a b : Bool) → (a && b) ≡ true → (a ≡ true) × (b ≡ true)
both_true true b h = (refl, h)
both_true false b h = cc h

module _ {F : Type 0} ⦃f : Float F⦄ where
  -- The status is the one asked for, if any, and so is the symbol, if one is asked for that is not empty.
  abbrev pub HasStatus : Option Status → Position F → Type 0
  HasStatus none p = Unit
  HasStatus (some s) p = p.status ≡ s

  abbrev pub HasSymbol : Option String → Position F → Type 0
  HasSymbol none p = Unit
  HasSymbol (some y) p = (y ≡ "") ⊎ (p.symbol ≡ y)

  -- Later rows are newer: by the closing time where closed rows are asked for, with those that have none
  -- last, and else by the opening time.
  abbrev pub newness : Option Status → Position F → ℕ
  newness none p = p.open_time
  newness (some opened) p = p.open_time
  newness (some closed) p = elim (p.close_time) [ none ↦ 0 | some t ↦ suc t ]

  abbrev pub Selected : Option Status → Option String → Position F → Type 0
  Selected status symbol p = HasStatus status p × HasSymbol symbol p

  has_status :
      (status : Option Status) (p : Position F)
      → ((elim status as (λ _. Bool) [ none ↦ true | some s ↦ same_status p.status s ]) ≡ true)
        ↔ HasStatus status p
  has_status none p = (λ h. tt, λ h. refl)
  has_status (some s) p = same_status_iff p.status s

  has_symbol :
      (symbol : Option String) (p : Position F)
      → ((elim symbol as (λ _. Bool) [
        | none ↦ true
        | some y ↦ if str_eq y "" then true else str_eq p.symbol y
      ])
          ≡ true)
        ↔ HasSymbol symbol p
  has_symbol none p = (λ h. tt, λ h. refl)
  has_symbol (some y) p = elim (Bool-cases (str_eq y "")) [
    | inl e ↦ rw e (λ h. inl ((eq_iff y "").0 e), λ h. refl)
    | inr e ↦
        rw e (
          λ h. inr ((eq_iff p.symbol y).0 h),
          λ h. ground (arith, h, eq_iff y "", eq_iff p.symbol y),
        )
  ]

  selected-Selected :
      (status : Option Status) (symbol : Option String) (p : Position F)
      → (selected status symbol p ≡ true) ↔ Selected status symbol p
  selected-Selected status symbol p =
      let (st, back_st) = has_status status p in
      let (sy, back_sy) = has_symbol symbol p in
      (λ h. let (a, b) = both_true _ _ h in (st a, sy b), λ (a, b). rw (back_st a, back_sy b) refl)

  same_key : (status : Option Status) (p : Position F) → order_key status p ≡ newness status p
  same_key none p = refl
  same_key (some opened) p = refl
  same_key (some closed) p = refl

  -- What `get_positions` returns is a page of the rows that have the status and the symbol asked for,
  -- each where one is asked for and the symbol is not empty, as a test of the rows decides: together
  -- with the rows left out it is a permutation of them, the newest first, by the closing time where closed
  -- rows are asked for and else by the opening time; it is no longer than the limit, and where it is
  -- shorter nothing is left out.
  pub get_positions-Pages :
      (status : Option Status) (symbol : Option String) (limit : ℕ) (d : Db F)
      → (wanted : Position F → Bool) × ((p : Position F)
          → (wanted p ≡ true) ↔ Selected status symbol p)
        × Pages
            (newness status)
            limit
            (filter wanted d.positions)
            (get_positions status symbol limit d)
  unfolding get_positions
  get_positions-Pages status symbol limit d = (
    selected status symbol,
    selected-Selected status symbol,
    subst
        (λ key.
          Pages key limit (filter (selected status symbol) d.positions)
            (get_positions status symbol limit d))
        (fun_ext (same_key status))
        (page-Pages (order_key status) limit (filter (selected status symbol) d.positions)),
  )
