-- ===== src/Tests/Routes.antt =====
-- The presets, the routes and the strategy classes.
use autr_back.Prelude.{
  ◌≡◌, refl, true, ◌&&◌, none, some, String, str_eq, List, [], ◌∷◌, if◌then◌else◌,
}
use autr_back.Prelude.Int.{ℤ, pos}
use autr_back.Prelude.Action.{ok, raised, failure}
use autr_back.Float.Fixed.{fixed_float}
use autr_back.Db.Rows as Rows
use autr_back.Db.Rows.{Db}
use autr_back.Db.Presets.{
  Presets, get_strategy_preset, save_strategy_preset, get-save_strategy_preset,
}
use autr_back.Api.Access.{Texts}
use autr_back.Api.Values.{Value, bool, int, str, Casts, cast, refused, checked_updates}
use autr_back.Api.Values.Checks.{Answers, checked_updates-Answers}
use autr_back.Api.Orders.{ManualOrder}
use autr_back.Services.Providers.{Faults}
use autr_back.Strategies.Decision.{sell, SignalDecision}
use autr_back.Strategies.Runner.{Runner, Tracker, Station, Names, trade}
use autr_back.Strategies.Runner.Trades.{Trades, trades_only, trade-Trades}
use autr_back.Strategies.Runner.Unrecorded.{unrecorded_sale}
use autr_back.Tests.Fixtures.{amount, Outside, bench, empty_db, start}

abbrev no_presets : Presets
no_presets = record { rows = []; last_id = 0; now = 3 }

get-save_strategy_preset_example :
    get_strategy_preset
      (λ s. s)
      some
      "dual_timeframe"
      "XRPUSDT"
      (save_strategy_preset (λ s. s) some "dual_timeframe" "XRPUSDT" "{}" no_presets)
    ≡ (if str_eq "dual_timeframe" "dual_timeframe" && str_eq "XRPUSDT" "XRPUSDT"
        then some "{}"
        else get_strategy_preset (λ s. s) some "dual_timeframe" "XRPUSDT" no_presets)
get-save_strategy_preset_example =
    get-save_strategy_preset (λ s. s) some (λ v. refl) "dual_timeframe" "XRPUSDT" "dual_timeframe"
      "XRPUSDT" "{}" no_presets

abbrev plain : Texts
plain = record { strip = λ s. s; lower = λ s. s; upper = λ s. s }

abbrev casts : Casts ℤ
casts = record {
  to_bool = λ v. true;
  to_int = λ v. cast (pos 7);
  to_float = λ v. refused;
  to_str = λ v. "text";
}

abbrev current : List (String × Value ℤ)
current = ("loop_seconds", int (pos 60)) ∷ ("on", bool true) ∷ []

abbrev wanted : List (String × Value ℤ)
wanted = ("on", str "off") ∷ ("loop_seconds", str "7") ∷ []

checked_updates-Answers_example :
    Answers plain casts current wanted (checked_updates plain casts current wanted)
checked_updates-Answers_example = checked_updates-Answers plain casts current wanted

abbrev order : ManualOrder ℤ
order = record { symbol = "SOLUSDT"; side = "Sell"; qty = amount 2 }

-- A store that takes no further trade.
abbrev full_disk : Faults (Db ℤ)
full_disk = record { before = λ s d. some (failure "disk full"); after = λ s d. none }

abbrev names : Names
names = record { strategy = "regime_trend"; prefix = "regime"; symbol = "BTCUSDT" }

abbrev exit : SignalDecision ℤ
exit = record { signal = sell; reason = "regime_exit"; stop = none; close_price = amount 40 }

abbrev runner : Runner ℤ
runner = record {
  held = true;
  trade_amount = some (amount 2);
  stop = some (amount 30);
  bars_since_trade = 4;
  last_signal = none;
  last_reason = none;
  last_indicators = [];
}

abbrev station : Station ℤ (Db ℤ) Outside
station = record { runner = runner; db = empty_db; outside = start.outside }

trade-Trades_example :
    Trades bench "BTCUSDT" exit.close_price sell true station
      (trade
        (trades_only (λ s d. (ok tt, d)) (λ s d. (ok none, d)))
        bench
        names
        exit
        sell
        true
        station).1
trade-Trades_example =
    trade-Trades (λ s d. (ok tt, d)) (λ s d. (ok none, d)) bench names exit sell true station

-- A tracker whose trades cannot be written.
abbrev broken : Tracker ℤ (Db ℤ)
broken = record {
  add_signal_log = λ s d. (ok tt, d);
  add_trade = λ t d. (raised (failure "disk full"), d);
  get_spot = λ s d. (ok none, d);
}

abbrev sold_outside : Outside
sold_outside = record start.outside { orders = Rows.sell ∷ [] }

unrecorded_sale_example : trade broken bench names exit sell true station ≡ (
  raised (failure "disk full"),
  record { runner = runner; db = empty_db; outside = sold_outside },
)
unrecorded_sale_example =
    unrecorded_sale broken bench names exit station sold_outside "order" (amount 2)
      (failure "disk full") empty_db refl refl
