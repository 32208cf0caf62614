-- ===== src/StrategyService/Building.antt =====
-- `build_strategy` of src/autr/services/strategy.py: which class, and with which parameters. The dataclasses
-- of src/autr/strategies/strategy_params.py are dicts from their fields to the defaults.
use autr_back.Prelude.{
  ◌⊎◌, inl, inr, ◌≡◌, refl, Option, none, some, String, str_eq, List, [], ◌∷◌, if◌then◌else◌,
}
use autr_back.Prelude.Int.{pos}
use autr_back.Prelude.Dict.{Dict, lookup}
use autr_back.Prelude.Action.{Outcome, ok, raised, failure}
use autr_back.Float.Core.{Float}
use autr_back.Api.Access.{Texts}
use autr_back.Api.Values.{Value, int, float, str, Casts, Cast, cast}
use autr_back.StrategyService.Overrides.{
  Distinct, setdefault, Distinct-setdefault, cast_as, apply_preset_overrides, Overflows, Applied,
  apply_preset_overrides-Applied,
}

-- The class that is made, besides the client and the database.
pub data Class : Type 0 where
  trend_strategy breakout_strategy reversion_strategy dual_strategy : Class

pub record Built (F : Type 0) : Type 0 where
  pub class : Class
  pub params : Dict (Value F)

-- `os.getenv(name, default)`
abbrev pub getenv : Dict String → String → String → String
getenv env name default = elim (lookup name env) [ none ↦ default | some s ↦ s ]

-- A name that is none of the others stands for the regime's trend.
abbrev pub class_of : String → Class
class_of name =
    if str_eq name "breakout_volume"
    then breakout_strategy
    else if str_eq name "mean_reversion"
    then reversion_strategy
    else if str_eq name "dual_timeframe"
    then dual_strategy
    else trend_strategy

-- A field, the variable of the environment that it is read from, if any, and its default.
abbrev pub Fields : Type 0 → Type 0
Fields F = List (String × Option String × Value F)

module _ {F : Type 0} ⦃f : Float F⦄ where
  open f use {lit}

  abbrev loop_field : String × Option String × Value F
  loop_field = ("loop_seconds", some "STRATEGY_LOOP_SECONDS", int (pos 60))

  abbrev market : String → Fields F → Fields F
  market symbol fields =
      ("symbol", none, str symbol)
      ∷ ("interval", none, str "15")
      ∷ ("lookback_bars", none, int (pos 260))
      ∷ fields

  abbrev breakout_fields : String → Fields F
  breakout_fields symbol = market symbol (
      ("breakout_period", none, int (pos 20))
      ∷ ("volume_ma_period", none, int (pos 20))
      ∷ ("volume_multiplier", none, float (lit 3 2))
      ∷ ("atr_period", none, int (pos 14))
      ∷ ("initial_stop_atr_mult", none, float (lit 2 1))
      ∷ ("trailing_stop_atr_mult", none, float (lit 5 2))
      ∷ loop_field
      ∷ ("cooldown_bars", none, int (pos 3))
      ∷ [])

  abbrev reversion_fields : String → Fields F
  reversion_fields symbol = market symbol (
      ("bb_period", none, int (pos 20))
      ∷ ("bb_std", none, float (lit 2 1))
      ∷ ("rsi_period", none, int (pos 14))
      ∷ ("rsi_oversold", none, float (lit 30 1))
      ∷ ("rsi_overbought", none, float (lit 65 1))
      ∷ ("atr_period", none, int (pos 14))
      ∷ ("stop_atr_mult", none, float (lit 3 2))
      ∷ loop_field
      ∷ ("cooldown_bars", none, int (pos 2))
      ∷ [])

  abbrev dual_fields : String → Fields F
  dual_fields symbol =
      ("symbol", none, str symbol)
      ∷ ("htf_interval", none, str "60")
      ∷ ("htf_ema_fast", none, int (pos 20))
      ∷ ("htf_ema_slow", none, int (pos 50))
      ∷ ("ltf_interval", none, str "15")
      ∷ ("ltf_lookback_bars", none, int (pos 260))
      ∷ ("ltf_rsi_period", none, int (pos 14))
      ∷ ("ltf_rsi_oversold", none, float (lit 40 1))
      ∷ ("ltf_ema_period", none, int (pos 20))
      ∷ ("atr_period", none, int (pos 14))
      ∷ ("initial_stop_atr_mult", none, float (lit 2 1))
      ∷ ("trailing_stop_atr_mult", none, float (lit 5 2))
      ∷ loop_field
      ∷ ("cooldown_bars", none, int (pos 2))
      ∷ []

  -- Nearly every field of this one is read from the environment.
  abbrev trend_fields : String → Fields F
  trend_fields symbol =
      ("symbol", none, str symbol)
      ∷ ("interval", some "STRATEGY_INTERVAL", str "15")
      ∷ ("lookback_bars", some "STRATEGY_LOOKBACK_BARS", int (pos 260))
      ∷ ("ema_fast_period", some "STRATEGY_EMA_FAST", int (pos 50))
      ∷ ("ema_slow_period", some "STRATEGY_EMA_SLOW", int (pos 200))
      ∷ ("min_trend_gap_pct", some "STRATEGY_MIN_TREND_GAP_PCT", float (lit 1 1000))
      ∷ ("atr_period", some "STRATEGY_ATR_PERIOD", int (pos 14))
      ∷ ("initial_stop_atr_mult", some "STRATEGY_INITIAL_STOP_ATR_MULT", float (lit 5 2))
      ∷ ("trailing_stop_atr_mult", some "STRATEGY_TRAILING_STOP_ATR_MULT", float (lit 3 1))
      ∷ loop_field
      ∷ ("cooldown_bars", some "STRATEGY_COOLDOWN_BARS", int (pos 2))
      ∷ []

  abbrev pub fields_of : Class → String → Fields F
  fields_of trend_strategy = trend_fields
  fields_of breakout_strategy = breakout_fields
  fields_of reversion_strategy = reversion_fields
  fields_of dual_strategy = dual_fields

module _ {F : Type 0} ⦃f : Float F⦄ (t : Texts) (k : Casts F) (env : Dict String) where
  abbrev text_cast : Cast (Value F) → Option (Value F)
  text_cast (cast v) = some v
  text_cast _ = none

  abbrev read_text : Value F → String → Option (Value F)
  read_text (str _) s = some (str s)
  read_text default s = text_cast (cast_as k default (str s))

  -- `int(os.getenv(..))` and `float(os.getenv(..))`: none for a ValueError.
  abbrev read_field : Option String → Value F → Option (Value F)
  read_field none default = some default
  read_field (some variable) default = elim (lookup variable env) [
    | none ↦ some default
    | some s ↦ read_text default s
  ]

  -- The dataclass, as it is made.
  unfoldable pub from_env : Fields F → Option (Dict (Value F))
  from_env [] = some []
  from_env ((name, variable, default) ∷ fields) =
      let rest = from_env fields in
      elim (read_field variable default) [
        | none ↦ none
        | some v ↦ elim rest [ none ↦ none | some d ↦ some ((name, v) ∷ d) ]
      ]

  abbrev pub default_symbol : String
  default_symbol = t.upper (getenv env "STRATEGY_SYMBOL" "BTCUSDT")

  abbrev pub base_params : Class → Option (Dict (Value F))
  base_params class = from_env (fields_of class default_symbol)

  abbrev overrides_of : Dict (Value F) → Dict (Value F)
  overrides_of overrides = setdefault "symbol" (str default_symbol) overrides

  abbrev built : Class → Option (Dict (Value F)) → Outcome (Built F)
  built class none = raised (failure "OverflowError")
  built class (some params) = ok (record { class = class; params = params })

  abbrev make : Class → Dict (Value F) → Option (Dict (Value F)) → Outcome (Built F)
  make class overrides none = raised (failure "ValueError")
  make class overrides (some params) = built class (apply_preset_overrides k params overrides)

  unfoldable pub build_strategy : String → Dict (Value F) → Outcome (Built F)
  build_strategy name overrides =
      make (class_of name) (overrides_of overrides) (base_params (class_of name))

  -- The strategy is of the class of its name; a field is the one that the environment and the defaults
  -- give, overridden by the overrides, to which the symbol is added where it is missing. There is an
  -- exception just where the environment has a text that is no number, or a conversion overflows.
  abbrev pub Configured : String → Dict (Value F) → Outcome (Built F) → Type 0
  Configured name overrides (raised e) =
      (base_params (class_of name) ≡ none)
      ⊎ ((params : Dict (Value F)) × (base_params (class_of name) ≡ some params)
          × Overflows k (overrides_of overrides) params)
  Configured name overrides (ok s) =
      (s.class ≡ class_of name)
      × ((params : Dict (Value F)) × (base_params (class_of name) ≡ some params)
          × Applied k (overrides_of overrides) params (some s.params))

  built-Configured :
      (name : String) (overrides params : Dict (Value F)) (r : Option (Dict (Value F)))
      → base_params (class_of name) ≡ some params
      → Applied k (overrides_of overrides) params r
      → Configured name overrides (built (class_of name) r)
  built-Configured name overrides params none e h = inr (params, e, h)
  built-Configured name overrides params (some d) e h = (refl, (params, e, h))

  make-Configured :
      (name : String) (overrides : Dict (Value F))
      → Distinct overrides
      → (o : Option (Dict (Value F))) → base_params (class_of name) ≡ o
      → Configured name overrides (make (class_of name) (overrides_of overrides) o)
  make-Configured name overrides h none e = inl e
  make-Configured name overrides h (some params) e =
      built-Configured name overrides params
        (apply_preset_overrides k params (overrides_of overrides)) e
        (apply_preset_overrides-Applied k (overrides_of overrides) params
          (Distinct-setdefault "symbol" (str default_symbol) overrides h))

  -- The parameters of a strategy.
  pub build_strategy-Configured :
      (name : String) (overrides : Dict (Value F))
      → Distinct overrides
      → Configured name overrides (build_strategy name overrides)
  unfolding build_strategy
  build_strategy-Configured name overrides h =
      make-Configured name overrides h (base_params (class_of name)) refl
