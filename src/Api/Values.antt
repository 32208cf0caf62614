-- ===== src/Api/Values.antt =====
-- The values of parameters: `_parse_bool`, `_normalize_param_values` and the checks of
-- `update_trading_params`.
pub mod Checks
use autr_back.Prelude.{
  ℕ, ◌≡◌, ◌⊎◌, str_eq, eq_iff, List, arith, refl, Bool, true, false, Option, none, some, Bool-cases,
  inl, inr, String, [], ◌∷◌, if◌then◌else◌,
}
use autr_back.Prelude.Int.{ℤ}
use autr_back.Prelude.Dict.{Dict, lookup}
use autr_back.Api.Access.{Response, served, http, Texts, listed}

-- A value of JSON that is no list and no dict.
pub data Value (F : Type 0) : Type 0 where
  bool : Bool → Value F
  int : ℤ → Value F
  float : F → Value F
  str : String → Value F
  null : Value F

-- What a conversion gives: a value, a ValueError or a TypeError, or an OverflowError, as for `int` of an
-- infinite float.
pub data Cast (A : Type 0) : Type 0 where
  cast : A → Cast A
  refused overflowed : Cast A

-- The built-ins `bool`, `int`, `float` and `str`.
pub record Casts (F : Type 0) : Type 0 where
  pub to_bool : Value F → Bool
  pub to_int : Value F → Cast ℤ
  pub to_float : Value F → Cast F
  pub to_str : Value F → String

abbrev pub cast_map : {A B : Type 0} → (A → B) → Cast A → Cast B
cast_map g (cast a) = cast (g a)
cast_map g refused = refused
cast_map g overflowed = overflowed

module _ {F : Type 0} (t : Texts) (k : Casts F) where
  unfoldable pub parse_bool : Value F → Bool
  parse_bool (bool b) = b
  parse_bool (str s) =
      let lowered = t.lower (t.strip s) in
      if listed lowered ("true" ∷ "1" ∷ "yes" ∷ "y" ∷ "on" ∷ [])
      then true
      else if listed lowered ("false" ∷ "0" ∷ "no" ∷ "n" ∷ "off" ∷ [])
      then false
      else k.to_bool (str s)
  parse_bool v = k.to_bool v

  -- One value, in the type of the current one.
  unfoldable pub normalize_value : Option (Value F) → Value F → Cast (Value F)
  unfolding parse_bool
  normalize_value (some (bool _)) v = cast (bool (parse_bool v))
  normalize_value (some (int _)) v = cast_map int (k.to_int v)
  normalize_value (some (float _)) v = cast_map float (k.to_float v)
  normalize_value (some (str _)) v = cast (str (k.to_str v))
  normalize_value (some null) v = cast v
  normalize_value none v = cast v

  abbrev pub normalized_first :
      String → Cast (Value F) → Response (Dict (Value F)) → Response (Dict (Value F))
  normalized_first key refused rest = http 422
  normalized_first key overflowed rest = http 500
  normalized_first key (cast v) (http code) = http code
  normalized_first key (cast v) (served vs) = served ((key, v) ∷ vs)

  -- `_normalize_param_values`: the first value that cannot be converted ends it. An OverflowError is not
  -- caught, and the server answers it with the status 500.
  unfoldable pub normalize_param_values :
      Dict (Value F) → Dict (Value F) → Response (Dict (Value F))
  unfolding normalize_value
  normalize_param_values current [] = served []
  normalize_param_values current ((key, v) ∷ updates) =
      normalized_first key (normalize_value (lookup key current) v)
        (normalize_param_values current updates)

  abbrev pub known : Dict (Value F) → Dict (Value F) → Bool
  known current [] = true
  known current ((key, v) ∷ updates) = elim (lookup key current) [
    | none ↦ false
    | some _ ↦ known current updates
  ]

  -- `update_trading_params`, up to the values that are applied.
  unfoldable pub checked_updates : Dict (Value F) → Dict (Value F) → Response (Dict (Value F))
  unfolding normalize_param_values
  checked_updates current [] = http 422
  checked_updates current (u ∷ us) =
      if known current (u ∷ us) then normalize_param_values current (u ∷ us) else http 422
