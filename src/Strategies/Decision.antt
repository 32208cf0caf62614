-- ===== src/Strategies/Decision.antt =====
-- What every engine returns. An indicator frame is the list of its rows, the newest last; a row has the
-- columns that `decide` reads. The columns are computed by pandas, outside this library.
use autr_back.Prelude.{Option, none, some, String, List, [], ◌∷◌}

pub data Signal : Type 0 where
  buy sell hold : Signal

-- `SignalDecision`; `stop` is its `trailing_stop`, or the `stop_price` of mean reversion.
pub record SignalDecision (F : Type 0) : Type 0 where
  pub signal : Signal
  pub reason : String
  pub stop : Option F
  pub close_price : F

module _ {F : Type 0} where
  abbrev pub decision : Signal → String → Option F → F → SignalDecision F
  decision signal reason stop close_price = record {
    signal = signal;
    reason = reason;
    stop = stop;
    close_price = close_price;
  }

-- `iloc[-2]` and `iloc[-1]`
abbrev pub last_two {ℓ} : {A : Type ℓ} → List A → Option (A × A)
last_two [] = none
last_two (a ∷ []) = none
last_two (a ∷ b ∷ []) = some (a, b)
last_two (a ∷ b ∷ c ∷ rest) = last_two (b ∷ c ∷ rest)
