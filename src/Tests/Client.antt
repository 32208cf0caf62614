-- ===== src/Tests/Client.antt =====
-- The retries of the Bybit client.
use autr_back.Prelude.{◌∷◌, [], List, ℕ, ◌≡◌, refl, false, String, [], arith}
use autr_back.Prelude.Int.{ℤ}
use autr_back.Prelude.Action.{Action, ok, raised, error_of, requests_timeout, raise, failure}
use autr_back.Db.Rows.{buy}
use autr_back.Bybit.Session.{Session, OrderRequest, spot}
use autr_back.Bybit.Retry.{call}
use autr_back.Bybit.Retry.Attempts.{
  Ending, recorded, Retries, call-Retries, execute, copies, call_repeats_orders,
}
use autr_back.Tests.Fixtures.{amount}

-- A session that refuses everything, over any outside.
abbrev silent : {X : Type 0} → Session ℤ X
silent = record {
  get_tickers = λ c symbol. raise (failure "no answer");
  get_wallet_balance = raise (failure "no answer");
  place_order = λ request. raise (failure "no answer");
  get_order_history = λ c symbol id. raise (failure "no answer");
  get_positions = λ symbol. raise (failure "no answer");
  set_leverage = λ symbol a b. raise (failure "no answer");
  sleep = λ x. x;
  monotonic = λ x. 0;
  base_currency = λ symbol. symbol;
}

-- The third attempt is answered.
abbrev third_time : List Ending → Action ℕ String
third_time [] x = (raised (error_of requests_timeout "timed out"), x)
third_time (_ ∷ []) x = (raised (error_of requests_timeout "timed out"), x)
third_time (_ ∷ _ ∷ _) x = (ok "done", x)

call-Retries_example : Retries [] 4 (call {F = ℤ} silent (recorded third_time) (7, []))
call-Retries_example = call-Retries {F = ℤ} silent (λ x. x) third_time 7 [] (λ y. refl)

abbrev two_coins_order : OrderRequest ℤ
two_coins_order = record {
  category = spot;
  symbol = "BTCUSDT";
  side = buy;
  qty = amount 2;
  reduce_only = false;
}

call_repeats_orders_example :
    call {F = ℤ} silent (execute two_coins_order) (2, []) ≡ (ok "id", (0, copies 3 two_coins_order))
call_repeats_orders_example =
    call_repeats_orders silent 2 two_coins_order [] (λ x. refl) (omega arith)
