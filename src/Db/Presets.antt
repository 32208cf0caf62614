-- ===== src/Db/Presets.antt =====
-- The table `strategy_presets`: `get_strategy_preset` and `save_strategy_preset`. `json.dumps` and
-- `json.loads` are parameters.
use autr_back.Prelude.{
  ℕ, suc, ◌≡◌, refl, sym, ap, ◌∙◌, Bool, true, false, ◌&&◌, Option, none, some, String, str_eq,
  eq_iff, List, [], ◌∷◌, if◌then◌else◌, arith,
}

pub record Preset : Type 0 where
  pub id : ℕ
  pub strategy : String
  pub symbol : String
  pub params_json : String
  pub updated_at : ℕ

-- The table, its AUTOINCREMENT counter, and what `datetime('now')` reads.
pub record Presets : Type 0 where
  pub rows : List Preset
  pub last_id : ℕ
  pub now : ℕ

abbrev pub is_preset_of : String → String → Preset → Bool
is_preset_of strategy symbol r = str_eq r.strategy strategy && str_eq r.symbol symbol

unfoldable pub find_preset : String → String → List Preset → Option Preset
find_preset strategy symbol [] = none
find_preset strategy symbol (r ∷ rs) =
    if is_preset_of strategy symbol r then some r else find_preset strategy symbol rs

-- The INSERT: a row of the key is updated in place, else one is added with the id given.
unfoldable pub upsert : String → String → String → ℕ → ℕ → List Preset → List Preset
upsert strategy symbol json now id [] =
    record { id = id; strategy = strategy; symbol = symbol; params_json = json; updated_at = now }
    ∷ []
upsert strategy symbol json now id (r ∷ rs) =
    if is_preset_of strategy symbol r
    then record r { params_json = json; updated_at = now } ∷ rs
    else r ∷ upsert strategy symbol json now id rs

module _ {J : Type 0} (dumps : J → String) (loads : String → Option J) where
  -- A text that is no JSON gives None, like a missing row.
  unfoldable pub get_strategy_preset : String → String → Presets → Option J
  unfolding find_preset
  get_strategy_preset strategy symbol p = elim (find_preset strategy symbol p.rows) [
    | none ↦ none
    | some r ↦ loads r.params_json
  ]

  unfoldable pub save_strategy_preset : String → String → J → Presets → Presets
  unfolding upsert
  save_strategy_preset strategy symbol params p = record p {
    rows = upsert strategy symbol (dumps params) p.now (suc p.last_id) p.rows;
    last_id = suc p.last_id;
  }

  abbrev json_of : Option Preset → Option String
  json_of none = none
  json_of (some r) = some r.params_json

  find_preset-upsert :
      (s y s' y' json : String) (now id : ℕ) (rs : List Preset)
      → json_of (find_preset s' y' (upsert s y json now id rs))
        ≡ (if str_eq s s' && str_eq y y' then some json else json_of (find_preset s' y' rs))
  unfolding find_preset upsert
  find_preset-upsert s y s' y' json now id [] = ground arith
  find_preset-upsert s y s' y' json now id (r ∷ rs) = ground (
    arith,
    eq_iff s s',
    eq_iff y y',
    eq_iff r.strategy s,
    eq_iff r.strategy s',
    eq_iff r.symbol y,
    eq_iff r.symbol y',
    find_preset-upsert s y s' y' json now id rs,
  )

  get-json_of :
      (s y : String) (p : Presets)
      → get_strategy_preset s y p
        ≡ (elim (json_of (find_preset s y p.rows)) [ none ↦ none | some t ↦ loads t ])
  unfolding get_strategy_preset
  get-json_of s y p =
      elim (find_preset s y p.rows)
        as (λ o.
          (elim o as (λ _. Option J) [ none ↦ none | some r ↦ loads r.params_json ])
          ≡ (elim (json_of o) as (λ _. Option J) [ none ↦ none | some t ↦ loads t ])) [
            | none ↦ refl
            | some r ↦ refl
          ]

  pub get-saved_preset :
      (s y s' y' : String) (v : J) (p : Presets)
      → loads (dumps v) ≡ some v
      → get_strategy_preset s' y' (save_strategy_preset s y v p)
        ≡ (if str_eq s s' && str_eq y y' then some v else get_strategy_preset s' y' p)
  unfolding save_strategy_preset
  get-saved_preset s y s' y' v p h =
      get-json_of s' y' (save_strategy_preset s y v p)
      ∙ ap (λ o. elim o as (λ _. Option J) [ none ↦ none | some t ↦ loads t ])
          (find_preset-upsert s y s' y' (dumps v) p.now (suc p.last_id) p.rows)
      ∙ chosen (str_eq s s' && str_eq y y')
    where
      chosen :
          (b : Bool)
          → (elim (if b then some (dumps v) else json_of (find_preset s' y' p.rows))
              as (λ _. Option J) [ none ↦ none | some t ↦ loads t ])
            ≡ (if b then some v else get_strategy_preset s' y' p)
      chosen true = h
      chosen false = sym (get-json_of s' y' p)

  -- Where `json.loads` reads back what `json.dumps` writes, a preset that was saved is read back
  -- under its strategy and symbol, whatever was there before, and every other one reads as before.
  pub get-save_strategy_preset :
      ((v : J) → loads (dumps v) ≡ some v)
      → (s y s' y' : String) (v : J) (p : Presets)
      → get_strategy_preset s' y' (save_strategy_preset s y v p)
        ≡ (if str_eq s s' && str_eq y y' then some v else get_strategy_preset s' y' p)
  get-save_strategy_preset h s y s' y' v p = get-saved_preset s y s' y' v p (h v)
