-- ===== src/Tests/Startup.antt =====
-- The start of the application on an empty table of presets.
use autr_back.Prelude.{true, Option, none, some, String, str_eq, [], ◌∷◌, if◌then◌else◌}
use autr_back.Prelude.Int.{ℤ}
use autr_back.Prelude.Dict.{Dict, lookup}
use autr_back.Float.Fixed.{fixed_float}
use autr_back.Api.Access.{Texts}
use autr_back.Api.Values.{Value, bool, int, float, str, null, Casts, cast, refused, overflowed}
use autr_back.Db.Presets.{Presets}
use autr_back.StrategyService.Seeding.{builtin_presets, find_builtin}

abbrev plain : Texts
plain = record { strip = λ s. s; lower = λ s. s; upper = λ s. s }

abbrev casts : Casts ℤ
casts = record {
  to_bool = λ v. true;
  to_int = λ v. elim v [
    | int i ↦ cast i
    | bool _ ↦ refused
    | float _ ↦ overflowed
    | str _ ↦ refused
    | null ↦ refused
  ];
  to_float = λ v. refused;
  to_str = λ v. "text";
}

abbrev environment : Dict String
environment = ("TRADING_STRATEGY", "dual_timeframe") ∷ ("STRATEGY_SYMBOL", "XRPUSDT") ∷ []

-- A coding of the two built-in presets.
abbrev dumps : Dict (Value ℤ) → String
dumps d = elim (lookup "htf_interval" d) [ none ↦ "sol" | some _ ↦ "xrp" ]

abbrev loads : String → Option (Dict (Value ℤ))
loads s =
    if str_eq s "xrp"
    then find_builtin "dual_timeframe" "XRPUSDT" builtin_presets
    else find_builtin "dual_timeframe" "SOLUSDT" builtin_presets

abbrev empty_table : Presets
empty_table = record { rows = []; last_id = 0; now = 3 }
