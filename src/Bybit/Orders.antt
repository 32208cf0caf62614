-- ===== src/Bybit/Orders.antt =====
-- Spot orders: `place_order` and `_get_filled_qty`.
use autr_back.Prelude.{
  Bool, true, false, ◌&&◌, Option, none, some, String, List, ◌==◌, str_eq, if◌then◌else◌,
}
use autr_back.Prelude.Action.{message, ok, raised}
use autr_back.Float.Core.{Float, nought}
use autr_back.Db.Rows.{Side, buy, sell}
use autr_back.Bybit.Session.{Category, spot, OrderRequest, Session, Config}
use autr_back.Bybit.Retry.{call}
use autr_back.Bybit.Account.{first, get_current_price, calculate_safe_order_size}

-- The `error` of a failed order, with its text where that is not fixed.
pub data OrderError : Type 0 where
  no_safe_size no_api_key above_max below_min : OrderError
  refused : String → OrderError
  exception : String → OrderError

-- The dict that an order returns.
pub data OrderResult (F : Type 0) : Type 0 where
  filled : String → F → OrderResult F
  rejected : OrderError → OrderResult F

abbrev pub is_buy : Side → Bool
is_buy buy = true
is_buy sell = false

module _ {F : Type 0} ⦃f : Float F⦄ where
  open f use {mul, lt, parse}

  -- `float(order.get(key, 0) or 0)`, none where it raises
  abbrev pub number_or_zero : Option String → Option F
  number_or_zero none = some nought
  number_or_zero (some s) = if str_eq s "" then some nought else parse s

  -- The quantity in the first row, unless there is none, it raises or it is not positive.
  abbrev pub executed_or : F → List (Option String) → F
  executed_or requested rows = elim (first rows) [
    | none ↦ requested
    | some q ↦ elim (number_or_zero q) [
      | none ↦ requested
      | some cum_exec ↦ if lt nought cum_exec then cum_exec else requested
    ]
  ]

  unfoldable pub get_filled_qty :
      {X : Type 0} → Category → Session F X → String → String → F → X → F × X
  get_filled_qty category s symbol order_id requested x =
      let (r, x') = call s (s.get_order_history category symbol order_id) (s.sleep x) in
      (
        (elim r [
          | ok reply ↦ if reply.ret_code == 0 then executed_or requested reply.result else requested
          | raised e ↦ requested
        ]),
        x',
      )

  -- The call of the session, and what its answer means.
  unfoldable pub submit : {X : Type 0} → Session F X → OrderRequest F → X → OrderResult F × X
  submit s request x =
      let (r, x') = call s (s.place_order request) x in
      elim r [
        | ok reply ↦
            if reply.ret_code == 0
            then (let (qty, x'') =
                  get_filled_qty request.category s request.symbol reply.result request.qty x' in
                (filled reply.result qty, x''))
            else (rejected (refused reply.ret_msg), x')
        | raised e ↦ (rejected (exception (message e)), x')
      ]

  -- An order of a known quantity, from the check of the API key on.
  unfoldable pub place_sized :
      {X : Type 0} → Config F → Session F X → String → Side → F → X → OrderResult F × X
  place_sized c s symbol side qty x =
      let (price, x') = get_current_price s symbol x in
      if c.authenticated
      then (let order_value = mul qty price in
          if is_buy side && lt c.max_trade_amount order_value
          then (rejected above_max, x')
          else if lt order_value c.min_order_size
          then (rejected below_min, x')
          else submit s
              (record {
                category = spot;
                symbol = symbol;
                side = side;
                qty = qty;
                reduce_only = false;
              })
              x')
      else (rejected no_api_key, x')

  unfoldable pub place_order :
      {X : Type 0} → Config F → Session F X → String → Side → Option F → X → OrderResult F × X
  unfolding place_sized
  place_order c s symbol side (some qty) x = place_sized c s symbol side qty x
  place_order c s symbol side none x =
      let (size, x') = calculate_safe_order_size c s symbol side x in
      elim size [
        | none ↦ (rejected no_safe_size, x')
        | some qty ↦ place_sized c s symbol side qty x'
      ]
