-- ===== src/Db/Positions/Summary.antt =====
-- `get_position_summary`.
use autr_back.Prelude.{
  ℕ, ◌+◌, ◌==◌, Option, some, String, List, [], ◌∷◌, map, filter, length, take, if◌then◌else◌,
}
use autr_back.Float.Core.{Float, nought, hundred, min, max}
use autr_back.Db.Rows.{opened, closed, Position, Db}
use autr_back.Db.Positions.{get_positions}

pub record Summary (F : Type 0) : Type 0 where
  pub open_positions_count : ℕ
  pub closed_positions_count : ℕ
  pub total_unrealized_pnl : F
  pub total_invested : F
  pub realized_pnl : F
  pub open_positions : List (Position F)
  pub total_positions : ℕ
  pub winning_positions : ℕ
  pub losing_positions : ℕ
  pub win_rate : F
  pub best_trade : F
  pub worst_trade : F
  pub recent_closed_positions : List (Position F)

-- The built-ins `max` and `min` of a list, with a default.
abbrev fold_with {ℓ} : {A : Type ℓ} → (A → A → A) → A → List A → A
fold_with g x [] = x
fold_with g x (y ∷ ys) = fold_with g (g x y) ys

abbrev best_of {ℓ} : {A : Type ℓ} → (A → A → A) → A → List A → A
best_of g default [] = default
best_of g default (x ∷ xs) = fold_with g x xs

module _ {F : Type 0} ⦃f : Float F⦄ where
  open f use {lit, mul, div, lt, sum, round}

  unfoldable pub get_position_summary : Option String → Db F → Summary F
  get_position_summary symbol d =
      let open_positions = get_positions (some opened) symbol 1000 d in
      let closed_positions = get_positions (some closed) symbol 1000 d in
      let pnls = map (λ (p : Position F). p.unrealized_pnl) closed_positions in
      let realized_pnl = sum pnls in
      let winning = length (filter (λ x. lt nought x) pnls) in
      let closed_count = length closed_positions in
      let win_rate =
        if closed_count == 0
        then nought
        else mul (div (lit winning 1) (lit closed_count 1)) hundred in
      record {
        open_positions_count = length open_positions;
        closed_positions_count = closed_count;
        total_unrealized_pnl = sum (map (λ (p : Position F). p.unrealized_pnl) open_positions);
        total_invested = sum (map (λ (p : Position F). p.dollar_amount) open_positions);
        realized_pnl = realized_pnl;
        open_positions = open_positions;
        total_positions = length open_positions + closed_count;
        winning_positions = winning;
        losing_positions = length (filter (λ x. lt x nought) pnls);
        win_rate = round 2 win_rate;
        best_trade = best_of max nought pnls;
        worst_trade = best_of min nought pnls;
        recent_closed_positions = take 10 closed_positions;
      }
