-- ===== src/Api/Access.antt =====
-- Who may call, and with which names: `require_api_key`, `_validate_strategy_name`,
-- `_validate_symbol`, and the presets' routes.
use autr_back.Prelude.{
  ℕ, Bool, false, ◌||◌, Option, none, some, String, str_eq, List, [], ◌∷◌, if◌then◌else◌,
}
use autr_back.Prelude.Dict.{Dict, insert}
use autr_back.Db.Presets.{Presets, get_strategy_preset, save_strategy_preset}

-- A response: a value, or an HTTPException with its status code. The detail is left out.
pub data Response {ℓ} (A : Type ℓ) : Type ℓ where
  served : A → Response A
  http : ℕ → Response A

-- `str.strip`, `str.lower` and `str.upper`
pub record Texts : Type 0 where
  pub strip : String → String
  pub lower : String → String
  pub upper : String → String

-- `os.getenv(a) or os.getenv(b)`: a variable that is not set or empty gives way.
abbrev pub env_or : Option String → Option String → Option String
env_or none b = b
env_or (some a) b = if str_eq a "" then b else some a

-- `provided` is the header.
abbrev pub check_key : Option String → Option String → Response (Unit {0})
check_key none provided = http 500
check_key (some api_key) none = if str_eq api_key "" then http 500 else http 401
check_key (some api_key) (some provided) =
    if str_eq api_key "" then http 500 else if str_eq provided api_key then served tt else http 401

unfoldable pub require_api_key : Option String → Option String → Option String → Response (Unit {0})
require_api_key admin_key admin_api_key provided =
    check_key (env_or admin_key admin_api_key) provided

abbrev pub listed : String → List String → Bool
listed s [] = false
listed s (t ∷ ts) = str_eq s t || listed s ts

-- `AVAILABLE_STRATEGIES`
abbrev pub available_strategies : List String
available_strategies = "regime_trend" ∷ "breakout_volume" ∷ "mean_reversion" ∷ "dual_timeframe" ∷ []

-- `SUPPORTED_ASSETS`
abbrev pub supported_assets : List String
supported_assets = "BTCUSDT" ∷ "XRPUSDT" ∷ "SOLUSDT" ∷ []

module _ (t : Texts) where
  unfoldable pub validate_strategy_name : String → Response String
  validate_strategy_name strategy =
      let name = t.lower (t.strip strategy) in
      if listed name available_strategies then served name else http 422

  unfoldable pub validate_symbol : String → Response String
  validate_symbol symbol =
      let name = t.upper (t.strip symbol) in
      if listed name supported_assets then served name else http 422

-- Where the parameters of a preset come from.
pub data Source : Type 0 where
  db builtin default : Source

-- The parameters of a preset are dicts over Python's values `J`; `builtin_presets` is the dict of
-- strategy_params.py, and `json` the texts of the table.
module _ {J : Type 0} (t : Texts) (dumps : Dict J → String) (loads : String → Option (Dict J))
    (builtin_presets : String → String → Option (Dict J)) (text : String → J) where
  -- A built-in preset that is empty is no preset.
  abbrev builtin_or_default : Option (Dict J) → Dict J × Source
  builtin_or_default none = ([], default)
  builtin_or_default (some []) = ([], default)
  builtin_or_default (some (p ∷ ps)) = (p ∷ ps, builtin)

  abbrev preset_or : Option (Dict J) → Option (Dict J) → Dict J × Source
  preset_or (some params) other = (params, db)
  preset_or none other = builtin_or_default other

  -- `get_trading_preset`
  unfoldable pub get_trading_preset :
      String → String → Presets → Response (String × String × Dict J × Source)
  unfolding validate_strategy_name validate_symbol
  get_trading_preset strategy symbol p = elim (validate_strategy_name t strategy) [
    | http code ↦ http code
    | served name ↦ elim (validate_symbol t symbol) [
      | http code ↦ http code
      | served asset ↦
          let (params, source) =
            preset_or (get_strategy_preset dumps loads name asset p) (builtin_presets name asset) in
          served (name, asset, params, source)
    ]
  ]

  -- `save_trading_preset`: the symbol goes into the parameters.
  unfoldable pub save_trading_preset :
      String → String → Dict J → Presets → Response (String × String × Dict J) × Presets
  unfolding validate_strategy_name validate_symbol
  save_trading_preset strategy symbol params p = elim (validate_strategy_name t strategy) [
    | http code ↦ (http code, p)
    | served name ↦ elim (validate_symbol t symbol) [
      | http code ↦ (http code, p)
      | served asset ↦
          let stored = insert "symbol" (text asset) params in
          (served (name, asset, stored), save_strategy_preset dumps loads name asset stored p)
    ]
  ]

  -- `_load_preset_overrides`
  unfoldable pub load_preset_overrides : String → String → Presets → Dict J
  load_preset_overrides name asset p = elim (get_strategy_preset dumps loads name asset p) [
    | some params ↦ params
    | none ↦ elim (builtin_presets name asset) [ none ↦ [] | some params ↦ params ]
  ]
