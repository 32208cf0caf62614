-- ===== src/Db/Snapshots.antt =====
-- The table `portfolio_snapshots`: `add_portfolio_snapshot`, `get_portfolio_history`,
-- `get_portfolio_performance` and `cleanup_old_snapshots`.
use autr_back.Prelude.{
  ℕ, ◌-◌, ◌*◌, ltb, leb, Bool, true, not, none, some, String, str_eq, List, [], ◌∷◌, ◌++◌, filter,
  length, get_last?, if◌then◌else◌,
}
use autr_back.Float.Core.{Float, nought, hundred}
use autr_back.Bybit.Account.{first}
use autr_back.Db.Query.Chronicle.{oldest_first, IsAscending, oldest_first-Chronicle}
use mathlib.Core.List.{Perm}

pub record Snapshot (F : Type 0) : Type 0 where
  pub ts : ℕ
  pub total_value_usd : F
  pub current_btc_price : F
  pub balances_json : String

-- The table, what `datetime('now')` reads, in seconds, and the start of its year.
pub record Snapshots (F : Type 0) : Type 0 where
  pub rows : List (Snapshot F)
  pub now : ℕ
  pub start_of_year : ℕ

pub record Performance (F : Type 0) : Type 0 where
  pub daily_change : F
  pub weekly_change : F
  pub monthly_change : F
  pub daily_change_percent : F
  pub weekly_change_percent : F
  pub monthly_change_percent : F

abbrev pub hour : ℕ
hour = 3600

-- `period_map`, in seconds: any other text is seven days.
abbrev pub span_of : String → ℕ
span_of period =
    if str_eq period "1h"
    then hour
    else if str_eq period "24h"
    then 24 * hour
    else if str_eq period "1d"
    then 24 * hour
    else if str_eq period "30d"
    then 30 * 24 * hour
    else 7 * 24 * hour

module _ {F : Type 0} where
  -- The WHERE clause; "all" has none.
  abbrev pub is_within : String → Snapshots F → Snapshot F → Bool
  is_within period s r =
      if str_eq period "ytd"
      then leb s.start_of_year r.ts
      else if str_eq period "all"
      then true
      else leb (s.now - span_of period) r.ts

  -- The rows within the period, the oldest first; their balances stay texts.
  unfoldable pub get_portfolio_history : String → Snapshots F → List (Snapshot F)
  unfolding oldest_first
  get_portfolio_history period s = oldest_first (λ r. r.ts) (filter (is_within period s) s.rows)

  unfoldable pub cleanup_old_snapshots : ℕ → Snapshots F → ℕ × Snapshots F
  cleanup_old_snapshots retention_days s =
      let is_old = λ (r : Snapshot F). ltb r.ts (s.now - retention_days * (24 * hour)) in
      (length (filter is_old s.rows), record s { rows = filter (λ r. not (is_old r)) s.rows })

module _ {F J : Type 0} ⦃f : Float F⦄ (dumps : List (String × J) → String) where
  -- Without balances nothing is written.
  unfoldable pub add_portfolio_snapshot : List (String × J) → F → F → Snapshots F → Snapshots F
  add_portfolio_snapshot [] total_value_usd current_btc_price s = s
  add_portfolio_snapshot (b ∷ bs) total_value_usd current_btc_price s =
      let row : Snapshot F = record {
        ts = s.now;
        total_value_usd = total_value_usd;
        current_btc_price = current_btc_price;
        balances_json = dumps (b ∷ bs);
      } in
      record s { rows = s.rows ++ row ∷ [] }

module _ {F : Type 0} ⦃f : Float F⦄ where
  open f use {sub, mul, div, lt}

  -- The value that a period starts with.
  abbrev start_value : F → List (Snapshot F) → F
  start_value current rows = elim (first rows) [ none ↦ current | some r ↦ r.total_value_usd ]

  abbrev change_percent : F → F → F
  change_percent current start =
      if lt nought start then mul (div (sub current start) start) hundred else nought

  abbrev pub no_change : Performance F
  no_change = record {
    daily_change = nought;
    weekly_change = nought;
    monthly_change = nought;
    daily_change_percent = nought;
    weekly_change_percent = nought;
    monthly_change_percent = nought;
  }

  abbrev pub performance : F → F → F → F → Performance F
  performance current daily_start weekly_start monthly_start = record {
    daily_change = sub current daily_start;
    weekly_change = sub current weekly_start;
    monthly_change = sub current monthly_start;
    daily_change_percent = change_percent current daily_start;
    weekly_change_percent = change_percent current weekly_start;
    monthly_change_percent = change_percent current monthly_start;
  }

  unfoldable pub get_portfolio_performance : Snapshots F → Performance F
  unfolding get_portfolio_history
  get_portfolio_performance s =
      let history = get_portfolio_history "30d" s in
      if ltb (length history) 2
      then no_change
      else (let current : F = elim (get_last? history) [
        | none ↦ nought
        | some r ↦ r.total_value_usd
      ] in
          performance current (start_value current (get_portfolio_history "1d" s))
            (start_value current (get_portfolio_history "7d" s)) (start_value current history))

module _ {F : Type 0} where
  -- The history of a period holds the snapshots within it, each as often as the table, the oldest
  -- first.
  pub get_portfolio_history-Chronicle :
      (period : String) (s : Snapshots F)
      → Perm (get_portfolio_history period s) (filter (is_within period s) s.rows)
        × IsAscending (λ r. r.ts) (get_portfolio_history period s)
  unfolding get_portfolio_history
  get_portfolio_history-Chronicle period s =
      oldest_first-Chronicle (λ r. r.ts) (filter (is_within period s) s.rows)
