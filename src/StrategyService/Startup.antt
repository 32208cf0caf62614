-- ===== src/StrategyService/Startup.antt =====
-- `on_startup` of src/autr/ops/lifecycle.py: the presets are seeded, and the strategy is made with those of
-- its name and symbol. The clients and the adapter that it keeps in the application are left out.
use autr_back.Prelude.{Option, String, []}
use autr_back.Prelude.Dict.{Dict}
use autr_back.Prelude.Action.{Outcome}
use autr_back.Float.Core.{Float}
use autr_back.Db.Presets.{Presets}
use autr_back.Api.Access.{Texts}
use autr_back.Api.Values.{Value, str, Casts}
use autr_back.StrategyService.Overrides.{setdefault}
use autr_back.StrategyService.Building.{Built, getenv, default_symbol, build_strategy}
use autr_back.StrategyService.Seeding.{builtin_presets, seed_builtin_presets, load_preset_overrides}

module _ {F : Type 0} ⦃f : Float F⦄ (t : Texts) (k : Casts F) (dumps : Dict (Value F) → String)
    (loads : String → Option (Dict (Value F))) (env : Dict String) where
  abbrev pub default_name : String
  default_name = t.lower (getenv env "TRADING_STRATEGY" "regime_trend")

  unfoldable pub on_startup : Presets → Outcome (Built F) × Presets
  on_startup p =
      let seeded = seed_builtin_presets dumps loads builtin_presets p in
      let preset =
        load_preset_overrides dumps loads builtin_presets [] default_name (default_symbol t k env)
          seeded in
      (
        build_strategy t k env default_name
            (setdefault "symbol" (str (default_symbol t k env)) preset),
        seeded,
      )

  -- The overrides that the table and the built-in presets of the time before give.
  abbrev pub overrides_before : Presets → Dict (Value F)
  overrides_before p =
      setdefault "symbol" (str (default_symbol t k env)) (
        load_preset_overrides dumps loads builtin_presets [] default_name (default_symbol t k env)
          p)
