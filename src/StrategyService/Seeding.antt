-- ===== src/StrategyService/Seeding.antt =====
-- `seed_builtin_presets` and `load_preset_overrides` of src/autr/services/strategy.py, and the presets of
-- src/autr/strategies/strategy_params.py.
use autr_back.Prelude.{
  ◌≡◌, refl, ◌∙◌, ap, sym, Bool, true, false, ◌&&◌, Option, none, some, Bool-cases, inl, inr,
  String, str_eq, eq_iff, List, [], ◌∷◌, if◌then◌else◌, arith,
}
use autr_back.Prelude.Int.{pos}
use autr_back.Prelude.Dict.{Dict}
use autr_back.Float.Core.{Float}
use autr_back.Api.Values.{Value, int, float, str}
use autr_back.Db.Presets.{Presets, get_strategy_preset, save_strategy_preset, get-saved_preset}

-- A dict with the keys (strategy, symbol).
abbrev pub PresetTable : Type 0 → Type 0
PresetTable J = List (String × String × J)

module _ {F : Type 0} ⦃f : Float F⦄ where
  open f use {lit}

  -- `BUILTIN_PRESETS`
  abbrev pub builtin_presets : PresetTable (Dict (Value F))
  builtin_presets =
      (
        "dual_timeframe",
        "XRPUSDT",
        ("htf_ema_fast", int (pos 10))
            ∷ ("htf_ema_slow", int (pos 30))
            ∷ ("ltf_rsi_oversold", float (lit 35 1))
            ∷ ("htf_interval", str "30")
            ∷ [],
      )
      ∷ (
        "dual_timeframe",
        "SOLUSDT",
        ("htf_ema_fast", int (pos 12))
            ∷ ("htf_ema_slow", int (pos 35))
            ∷ ("ltf_rsi_oversold", float (lit 38 1))
            ∷ [],
      )
      ∷ []

-- `BUILTIN_PRESETS.get((strategy, symbol))`
unfoldable pub find_builtin : {J : Type 0} → String → String → PresetTable J → Option J
find_builtin strategy symbol [] = none
find_builtin strategy symbol ((s, y, v) ∷ rest) =
    if str_eq s strategy && str_eq y symbol then some v else find_builtin strategy symbol rest

abbrev pub or_else : {A : Type 0} → Option A → Option A → Option A
or_else none b = b
or_else (some a) b = some a

module _ {J : Type 0} (dumps : J → String) (loads : String → Option J) where
  -- One turn of the loop: a preset that is there stays.
  abbrev seed_one : String → String → J → Option J → Presets → Presets
  seed_one strategy symbol preset none p = save_strategy_preset dumps loads strategy symbol preset p
  seed_one strategy symbol preset (some _) p = p

  unfoldable pub seed_builtin_presets : PresetTable J → Presets → Presets
  seed_builtin_presets [] p = p
  seed_builtin_presets ((s, y, v) ∷ rest) p =
      seed_builtin_presets rest (seed_one s y v (get_strategy_preset dumps loads s y p) p)

  -- `load_preset_overrides`, which answers no overrides where there is no preset.
  unfoldable pub load_preset_overrides : PresetTable J → J → String → String → Presets → J
  unfolding find_builtin
  load_preset_overrides table empty s y p = elim (get_strategy_preset dumps loads s y p) [
    | some preset ↦ preset
    | none ↦ elim (find_builtin s y table) [ none ↦ empty | some preset ↦ preset ]
  ]

  or_else-none : (o : Option J) → or_else o none ≡ o
  or_else-none none = refl
  or_else-none (some a) = refl

  or_else_assoc : (a b c : Option J) → or_else (or_else a b) c ≡ or_else a (or_else b c)
  or_else_assoc none b c = refl
  or_else_assoc (some a) b c = refl

  or_else-chosen :
      (b : Bool) (v : J) (o : Option J)
      → or_else (if b then some v else none) o ≡ (if b then some v else o)
  or_else-chosen true v o = refl
  or_else-chosen false v o = refl

  same_key :
      (s y s' y' : String) (p : Presets)
      → (str_eq s s' && str_eq y y') ≡ true
      → get_strategy_preset dumps loads s' y' p ≡ get_strategy_preset dumps loads s y p
  same_key s y s' y' p e = ground (arith, eq_iff s s', eq_iff y y')

  -- `json` reads back the presets of a table.
  abbrev pub ReadBack : PresetTable J → Type 0
  ReadBack [] = Unit
  ReadBack ((_, _, v) ∷ rest) = (loads (dumps v) ≡ some v) × ReadBack rest

  get-seed_one :
      (s y s' y' : String) (v : J) (p : Presets) (o : Option J)
      → loads (dumps v) ≡ some v
      → get_strategy_preset dumps loads s y p ≡ o
      → get_strategy_preset dumps loads s' y' (seed_one s y v o p)
        ≡ or_else
            (get_strategy_preset dumps loads s' y' p)
            (if str_eq s s' && str_eq y y' then some v else none)
  get-seed_one s y s' y' v p none read_back h =
      get-saved_preset dumps loads s y s' y' v p read_back
      ∙ elim (Bool-cases (str_eq s s' && str_eq y y')) [
        | inl e ↦ rw (e, same_key s y s' y' p e, h) refl
        | inr e ↦ rw (e, or_else-none (get_strategy_preset dumps loads s' y' p)) refl
      ]
  get-seed_one s y s' y' v p (some w) read_back h = elim (Bool-cases (str_eq s s' && str_eq y y')) [
    | inl e ↦ rw (e, same_key s y s' y' p e, h) refl
    | inr e ↦ rw (e, or_else-none (get_strategy_preset dumps loads s' y' p)) refl
  ]

  -- After the seeding a preset reads as before, or, where there was none, as the built-in one.
  pub get-seed_builtin_presets :
      (s y : String) (table : PresetTable J) (p : Presets)
      → ReadBack table
      → get_strategy_preset dumps loads s y (seed_builtin_presets table p)
        ≡ or_else (get_strategy_preset dumps loads s y p) (find_builtin s y table)
  unfolding seed_builtin_presets find_builtin
  get-seed_builtin_presets s y [] p read_back =
      sym (or_else-none (get_strategy_preset dumps loads s y p))
  get-seed_builtin_presets s y ((s', y', v) ∷ rest) p (one, others) =
      get-seed_builtin_presets s y rest
        (seed_one s' y' v (get_strategy_preset dumps loads s' y' p) p) others
      ∙ ap (λ o. or_else o (find_builtin s y rest))
          (get-seed_one s' y' s y v p (get_strategy_preset dumps loads s' y' p) one refl)
      ∙ or_else_assoc (get_strategy_preset dumps loads s y p)
          (if str_eq s' s && str_eq y' y then some v else none) (find_builtin s y rest)
      ∙ ap (or_else (get_strategy_preset dumps loads s y p))
          (or_else-chosen (str_eq s' s && str_eq y' y) v (find_builtin s y rest))

  given :
      (empty : J) (o b : Option J)
      → (elim (or_else o b) as (λ _. J) [
        | some preset ↦ preset
        | none ↦ elim b as (λ _. J) [ none ↦ empty | some preset ↦ preset ]
      ])
        ≡ (elim o as (λ _. J) [
          | some preset ↦ preset
          | none ↦ elim b as (λ _. J) [ none ↦ empty | some preset ↦ preset ]
        ])
  given empty none none = refl
  given empty none (some b) = refl
  given empty (some a) b = refl

  -- The seeding does not change which overrides a strategy starts with.
  pub load_preset_overrides-seed :
      (table : PresetTable J) (empty : J) (s y : String) (p : Presets)
      → ReadBack table
      → load_preset_overrides table empty s y (seed_builtin_presets table p)
        ≡ load_preset_overrides table empty s y p
  unfolding load_preset_overrides
  load_preset_overrides-seed table empty s y p read_back =
      ap
        (λ o. elim o as (λ _. J) [
          | some preset ↦ preset
          | none ↦ elim (find_builtin s y table) as (λ _. J) [ none ↦ empty | some preset ↦ preset ]
        ])
        (get-seed_builtin_presets s y table p read_back)
      ∙ given empty (get_strategy_preset dumps loads s y p) (find_builtin s y table)
