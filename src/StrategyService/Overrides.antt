-- ===== src/StrategyService/Overrides.antt =====
-- `apply_preset_overrides` of src/autr/strategies/strategy_params.py. The object is the dict of its fields;
-- a key that names an attribute that is no field, such as `to_dict`, is left out.
use autr_back.Prelude.{
  ◌≡◌, refl, Option, none, some, Bool-cases, inl, inr, String, str_eq, str_eq_self, eq_iff, [], ◌∷◌,
  ◌∙◌, if◌then◌else◌, arith, subst, false, sym,
}
use autr_back.Prelude.Dict.{Dict, lookup, insert, lookup-insert, lookup-insert_self}
use autr_back.Api.Values.{
  Value, bool, int, float, str, null, Casts, Cast, cast, refused, overflowed, cast_map,
}

-- The keys of a Python dict are distinct.
abbrev pub Distinct : {V : Type 0} → Dict V → Type 0
Distinct [] = Unit
Distinct ((k, _) ∷ d) = (lookup k d ≡ none) × Distinct d

-- `d.setdefault(k, v)`
abbrev pub setdefault : {V : Type 0} → String → V → Dict V → Dict V
setdefault k v d = elim (lookup k d) [ none ↦ insert k v d | some _ ↦ d ]

module _ {V : Type 0} where
  Distinct-insert : (key : String) (v : V) (d : Dict V) → Distinct d → Distinct (insert key v d)
  unfolding insert lookup
  Distinct-insert key v [] h = (refl, tt)
  Distinct-insert key v ((j, w) ∷ d) (fresh, h) = elim (Bool-cases (str_eq j key)) [
    | inl e ↦ rw e (subst (λ i. (lookup i d ≡ none) × Distinct d) ((eq_iff j key).0 e) (fresh, h))
    | inr e ↦ rw e (
      ground (arith, e, fresh, lookup-insert key j v d, eq_iff key j, eq_iff j key),
      Distinct-insert key v d h,
    )
  ]

  pub Distinct-setdefault :
      (key : String) (v : V) (d : Dict V) → Distinct d → Distinct (setdefault key v d)
  Distinct-setdefault key v d h =
      elim (lookup key d)
        as (λ o. Distinct (elim o as (λ _. Dict V) [ none ↦ insert key v d | some _ ↦ d ])) [
          | none ↦ Distinct-insert key v d h
          | some _ ↦ h
        ]

module _ {F : Type 0} (k : Casts F) where
  -- `type(current)(value)`; the type of None takes no argument, which is a TypeError.
  abbrev pub cast_as : Value F → Value F → Cast (Value F)
  cast_as (bool _) v = cast (bool (k.to_bool v))
  cast_as (int _) v = cast_map int (k.to_int v)
  cast_as (float _) v = cast_map float (k.to_float v)
  cast_as (str _) v = cast (str (k.to_str v))
  cast_as null v = refused

  -- One key: a ValueError and a TypeError leave the value as it is, and an OverflowError, which gives
  -- none here, is not caught.
  abbrev override_known :
      String → Value F → Cast (Value F) → Dict (Value F) → Option (Dict (Value F))
  override_known key v (cast v') params = some (insert key v' params)
  override_known key v refused params = some (insert key v params)
  override_known key v overflowed params = none

  abbrev override_one :
      String → Value F → Option (Value F) → Dict (Value F) → Option (Dict (Value F))
  override_one key v none params = some params
  override_one key v (some current) params = override_known key v (cast_as current v) params

  unfoldable pub apply_preset_overrides : Dict (Value F) → Dict (Value F) → Option (Dict (Value F))
  apply_preset_overrides params [] = some params
  apply_preset_overrides params ((key, v) ∷ overrides) =
      elim (override_one key v (lookup key params) params) [
        | none ↦ none
        | some params' ↦ apply_preset_overrides params' overrides
      ]

  -- What becomes of a field: without a value it stays; with one it is that value in the type of the
  -- field's own, or as given where the conversion is refused.
  abbrev pub Turned : Value F → Value F → Cast (Value F) → Option (Value F) → Type 0
  Turned current v (cast v') result = result ≡ some v'
  Turned current v refused result = result ≡ some v
  Turned current v overflowed result = ⊥

  abbrev pub Overridden : Option (Value F) → Option (Value F) → Option (Value F) → Type 0
  Overridden none given result = result ≡ none
  Overridden (some current) none result = result ≡ some current
  Overridden (some current) (some v) result = Turned current v (cast_as current v) result

  -- A field whose value overflows.
  abbrev pub Overflows : Dict (Value F) → Dict (Value F) → Type 0
  Overflows overrides params =
      (j : String) × (current : Value F) × (v : Value F) × (lookup j params ≡ some current)
      × (lookup j overrides ≡ some v)
      × (cast_as current v ≡ overflowed)

  abbrev pub Applied : Dict (Value F) → Dict (Value F) → Option (Dict (Value F)) → Type 0
  Applied overrides params none = Overflows overrides params
  Applied overrides params (some d) =
      (j : String) → Overridden (lookup j params) (lookup j overrides) (lookup j d)

  Overridden-none : (c : Option (Value F)) → Overridden c none c
  Overridden-none none = refl
  Overridden-none (some c) = refl

  untouched : (c result : Option (Value F)) → Overridden c none result → result ≡ c
  untouched none result h = h
  untouched (some c) result h = h

  module _ (key : String) (v : Value F) (params os : Dict (Value F))
      (fresh : lookup key os ≡ none) where
    -- The dict after one key: at the key it has become what it should, elsewhere it is as before.
    abbrev OneTurn : Dict (Value F) → Type 0
    OneTurn params' =
        Overridden (lookup key params) (some v) (lookup key params')
        × ((j : String) → str_eq key j ≡ false → lookup j params' ≡ lookup j params)

    then_Applied :
        (params' d : Dict (Value F))
        → OneTurn params'
        → ((j : String) → Overridden (lookup j params') (lookup j os) (lookup j d))
        → (j : String)
        → Overridden (lookup j params) (if str_eq key j then some v else lookup j os) (lookup j d)
    then_Applied params' d (here, elsewhere) rest j = elim (Bool-cases (str_eq key j)) [
      | inl e ↦
          subst
            (λ i.
              Overridden (lookup i params) (if str_eq key i then some v else lookup i os)
                (lookup i d))
            ((eq_iff key j).0 e)
            (rw (str_eq_self key) (
              subst (Overridden (lookup key params) (some v))
                (sym (
                  untouched (lookup key params') (lookup key d) (
                    subst (λ o. Overridden (lookup key params') o (lookup key d)) fresh
                      (rest key))))
                here))
      | inr e ↦ rw e (subst (λ c. Overridden c (lookup j os) (lookup j d)) (elsewhere j e) (rest j))
    ]

    then_Overflows :
        (params' : Dict (Value F))
        → OneTurn params'
        → Overflows os params'
        → Overflows ((key, v) ∷ os) params
    unfolding lookup
    then_Overflows params' (here, elsewhere) (j, current, w, at_j, given, over) =
        elim (Bool-cases (str_eq key j)) [
          | inl e ↦ absurd (cc (given, subst (λ i. lookup i os ≡ none) ((eq_iff key j).0 e) fresh))
          | inr e ↦ (j, current, w, sym (elsewhere j e) ∙ at_j, rw e given, over)
        ]

    then_both :
        (params' : Dict (Value F)) (r : Option (Dict (Value F)))
        → OneTurn params'
        → Applied os params' r
        → Applied ((key, v) ∷ os) params r
    unfolding lookup
    then_both params' none turn h = then_Overflows params' turn h
    then_both params' (some d) turn h = then_Applied params' d turn h

    module _ (current : Value F) (known : lookup key params ≡ some current) where
      inserted_OneTurn :
          (v' : Value F)
          → Turned current v (cast_as current v) (some v')
          → OneTurn (insert key v' params)
      inserted_OneTurn v' turned = (
        rw (known, lookup-insert_self key v' params) turned,
        λ j e. rw (lookup-insert key j v' params, e) refl,
      )

      known_Applied :
          (o : Cast (Value F))
          → cast_as current v ≡ o
          → ((p : Dict (Value F)) → Applied os p (apply_preset_overrides p os))
          → Applied
              ((key, v) ∷ os)
              params
              (elim (override_known key v o params) as (λ _. Option (Dict (Value F))) [
                | none ↦ none
                | some p ↦ apply_preset_overrides p os
              ])
      unfolding lookup
      known_Applied (cast v') h ih =
          then_both (insert key v' params) (apply_preset_overrides (insert key v' params) os)
            (inserted_OneTurn v' (rw h refl)) (ih (insert key v' params))
      known_Applied refused h ih =
          then_both (insert key v params) (apply_preset_overrides (insert key v params) os)
            (inserted_OneTurn v (rw h refl)) (ih (insert key v params))
      known_Applied overflowed h ih = (key, current, v, known, rw (str_eq_self key) refl, h)

    one_Applied :
        (c : Option (Value F))
        → lookup key params ≡ c
        → ((p : Dict (Value F)) → Applied os p (apply_preset_overrides p os))
        → Applied
            ((key, v) ∷ os)
            params
            (elim (override_one key v c params) as (λ _. Option (Dict (Value F))) [
              | none ↦ none
              | some p ↦ apply_preset_overrides p os
            ])
    one_Applied none h ih =
        then_both params (apply_preset_overrides params os) (rw h refl, λ j e. refl) (ih params)
    one_Applied (some current) h ih = known_Applied current h (cast_as current v) refl ih

  -- The fields that `apply_preset_overrides` leaves, or the one whose value overflows.
  pub apply_preset_overrides-Applied :
      (overrides params : Dict (Value F))
      → Distinct overrides
      → Applied overrides params (apply_preset_overrides params overrides)
  unfolding apply_preset_overrides lookup
  apply_preset_overrides-Applied [] params d = λ j. Overridden-none (lookup j params)
  apply_preset_overrides-Applied ((key, v) ∷ os) params (fresh, d) =
      one_Applied key v params os fresh (lookup key params) refl
        (λ p. apply_preset_overrides-Applied os p d)
