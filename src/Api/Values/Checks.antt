-- ===== src/Api/Values/Checks.antt =====
-- What the checks of new values answer.
use autr_back.Prelude.{
  ℕ, ◌≡◌, ◌⊎◌, str_eq, eq_iff, List, arith, refl, Bool, true, false, Option, none, some, Bool-cases,
  inl, inr, String, [], ◌∷◌,
}
use autr_back.Prelude.Int.{ℤ}
use autr_back.Prelude.Dict.{Dict, lookup}
use autr_back.Api.Access.{Response, served, http, Texts, listed}
use autr_back.Api.Values.{
  Value, bool, int, float, str, null, Cast, cast, refused, overflowed, Casts, cast_map, parse_bool,
  normalize_value, normalized_first, normalize_param_values, known, checked_updates,
}

not_either {ℓ κ} : {P : Type ℓ} {Q : Type κ} → (¬ P) → (¬ Q) → P ⊎ Q → ⊥
not_either p q (inl x) = p x
not_either p q (inr y) = q y

module _ {F : Type 0} (t : Texts) (k : Casts F) where
  -- The text is one of the list.
  abbrev pub OneOf : String → List String → Type 0
  OneOf s [] = ⊥
  OneOf s (w ∷ ws) = (s ≡ w) ⊎ OneOf s ws

  abbrev pub yes_words : List String
  yes_words = "true" ∷ "1" ∷ "yes" ∷ "y" ∷ "on" ∷ []

  abbrev pub no_words : List String
  no_words = "false" ∷ "0" ∷ "no" ∷ "n" ∷ "off" ∷ []

  -- Which Boolean a value stands for: a text by its word, without case and blanks.
  abbrev pub StandsFor : Value F → Bool → Type 0
  StandsFor (bool a) b = b ≡ a
  StandsFor (str s) b =
      let word = t.lower (t.strip s) in
      (OneOf word yes_words × (b ≡ true))
      ⊎ ((¬ OneOf word yes_words) × OneOf word no_words × (b ≡ false))
      ⊎ ((¬ OneOf word yes_words) × (¬ OneOf word no_words) × (b ≡ k.to_bool (str s)))
  StandsFor v b = b ≡ k.to_bool v

  -- What becomes of a given value beside the current one: it is converted to that one's type, by `int`,
  -- `float` or `str`; where there is none, it stays as it was given.
  abbrev pub Becomes : Option (Value F) → Value F → Cast (Value F) → Type 0
  Becomes none v o = o ≡ cast v
  Becomes (some null) v o = o ≡ cast v
  Becomes (some (bool _)) v o = (b : Bool) × StandsFor v b × (o ≡ cast (bool b))
  Becomes (some (int _)) v o =
      ((i : ℤ) × (k.to_int v ≡ cast i) × (o ≡ cast (int i)))
      ⊎ ((k.to_int v ≡ refused) × (o ≡ refused))
      ⊎ ((k.to_int v ≡ overflowed) × (o ≡ overflowed))
  Becomes (some (float _)) v o =
      ((x : F) × (k.to_float v ≡ cast x) × (o ≡ cast (float x)))
      ⊎ ((k.to_float v ≡ refused) × (o ≡ refused))
      ⊎ ((k.to_float v ≡ overflowed) × (o ≡ overflowed))
  Becomes (some (str _)) v o = o ≡ cast (str (k.to_str v))

  -- The response for the values in turn: each as it became, under its key; or the status of the first
  -- that did not convert, 422 for a refusal and 500 for an overflow.
  abbrev pub Normal : Dict (Value F) → Dict (Value F) → Response (Dict (Value F)) → Type 0
  Normal current [] r = r ≡ served []
  Normal current ((key, v) ∷ us) r =
      (Becomes (lookup key current) v refused × (r ≡ http 422))
      ⊎ (Becomes (lookup key current) v overflowed × (r ≡ http 500))
      ⊎ ((v' : Value F) × Becomes (lookup key current) v (cast v')
          × (((vs : Dict (Value F)) × Normal current us (served vs) × (r ≡ served ((key, v') ∷ vs)))
              ⊎ ((code : ℕ) × Normal current us (http code) × (r ≡ http code))))

  abbrev pub Unknown : Dict (Value F) → Dict (Value F) → Type 0
  Unknown current [] = ⊥
  Unknown current ((key, v) ∷ us) = (lookup key current ≡ none) ⊎ Unknown current us

  -- An empty request and one with an unknown key are refused; any other is answered by its values.
  abbrev pub Answers : Dict (Value F) → Dict (Value F) → Response (Dict (Value F)) → Type 0
  Answers current [] r = r ≡ http 422
  Answers current (u ∷ us) r =
      (Unknown current (u ∷ us) × (r ≡ http 422))
      ⊎ ((¬ Unknown current (u ∷ us)) × Normal current (u ∷ us) r)

  listed-OneOf :
      (s : String) (ws : List String)
      → ((listed s ws ≡ true) × OneOf s ws) ⊎ ((listed s ws ≡ false) × ¬ OneOf s ws)
  listed-OneOf s [] = inr (refl, λ h. h)
  listed-OneOf s (w ∷ ws) = elim (Bool-cases (str_eq s w)) [
    | inl e ↦ rw e (inl (refl, inl ((eq_iff s w).0 e)))
    | inr e ↦ elim (listed-OneOf s ws) [
      | inl (l, h) ↦ rw e (inl (l, inr h))
      | inr (l, h) ↦ rw e (inr (l, not_either (λ same. ground (arith, e, same, eq_iff s w)) h))
    ]
  ]

  parse_bool-StandsFor : (v : Value F) → StandsFor v (parse_bool t k v)
  unfolding parse_bool
  parse_bool-StandsFor (bool b) = refl
  parse_bool-StandsFor (int i) = refl
  parse_bool-StandsFor (float x) = refl
  parse_bool-StandsFor null = refl
  parse_bool-StandsFor (str s) =
      let word = t.lower (t.strip s) in
      elim (listed-OneOf word yes_words) [
        | inl (l, h) ↦ rw (parse_bool, l) (inl (h, refl))
        | inr (l, h) ↦ elim (listed-OneOf word no_words) [
          | inl (l', h') ↦ rw (parse_bool, l, l') (inr (inl (h, h', refl)))
          | inr (l', h') ↦ rw (parse_bool, l, l') (inr (inr (h, h', refl)))
        ]
      ]

  to_int_Becomes :
      (i : ℤ) (v : Value F) (o : Cast ℤ)
      → k.to_int v ≡ o
      → Becomes (some (int i)) v (cast_map int o)
  to_int_Becomes i v (cast j) h = inl (j, h, refl)
  to_int_Becomes i v refused h = inr (inl (h, refl))
  to_int_Becomes i v overflowed h = inr (inr (h, refl))

  to_float_Becomes :
      (x : F) (v : Value F) (o : Cast F)
      → k.to_float v ≡ o
      → Becomes (some (float x)) v (cast_map float o)
  to_float_Becomes x v (cast y) h = inl (y, h, refl)
  to_float_Becomes x v refused h = inr (inl (h, refl))
  to_float_Becomes x v overflowed h = inr (inr (h, refl))

  normalize_value-Becomes :
      (c : Option (Value F)) (v : Value F) → Becomes c v (normalize_value t k c v)
  unfolding normalize_value
  normalize_value-Becomes none v = refl
  normalize_value-Becomes (some null) v = refl
  normalize_value-Becomes (some (bool b)) v = (parse_bool t k v, parse_bool-StandsFor v, refl)
  normalize_value-Becomes (some (str s)) v = refl
  normalize_value-Becomes (some (int i)) v = to_int_Becomes i v (k.to_int v) refl
  normalize_value-Becomes (some (float x)) v = to_float_Becomes x v (k.to_float v) refl

  normalized_first-Normal :
      (current us : Dict (Value F)) (key : String) (v : Value F) (o : Cast (Value F))
      (r : Response (Dict (Value F)))
      → Becomes (lookup key current) v o
      → Normal current us r
      → Normal current ((key, v) ∷ us) (normalized_first t k key o r)
  normalized_first-Normal current us key v refused r b h = inl (b, refl)
  normalized_first-Normal current us key v overflowed r b h = inr (inl (b, refl))
  normalized_first-Normal current us key v (cast v') (http code) b h =
      inr (inr (v', b, inr (code, h, refl)))
  normalized_first-Normal current us key v (cast v') (served vs) b h =
      inr (inr (v', b, inl (vs, h, refl)))

  normalize_param_values-Normal :
      (current updates : Dict (Value F))
      → Normal current updates (normalize_param_values t k current updates)
  unfolding normalize_param_values
  normalize_param_values-Normal current [] = refl
  normalize_param_values-Normal current ((key, v) ∷ us) =
      normalized_first-Normal current us key v (normalize_value t k (lookup key current) v)
        (normalize_param_values t k current us) (normalize_value-Becomes (lookup key current) v)
        (normalize_param_values-Normal current us)

  known_first :
      (current us : Dict (Value F)) (o : Option (Value F))
      → ((known t k current us ≡ true) × ¬ Unknown current us)
        ⊎ ((known t k current us ≡ false) × Unknown current us)
      → (((elim o as (λ _. Bool) [ none ↦ false | some _ ↦ known t k current us ]) ≡ true)
          × ¬ ((o ≡ none) ⊎ Unknown current us))
        ⊎ (((elim o as (λ _. Bool) [ none ↦ false | some _ ↦ known t k current us ]) ≡ false)
            × ((o ≡ none) ⊎ Unknown current us))
  known_first current us none h = inr (refl, inl refl)
  known_first current us (some c) (inl (l, h)) = inl (l, not_either (λ e. cc e) h)
  known_first current us (some c) (inr (l, h)) = inr (l, inr h)

  known-Unknown :
      (current us : Dict (Value F))
      → ((known t k current us ≡ true) × ¬ Unknown current us)
        ⊎ ((known t k current us ≡ false) × Unknown current us)
  known-Unknown current [] = inl (refl, λ h. h)
  known-Unknown current ((key, v) ∷ us) =
      known_first current us (lookup key current) (known-Unknown current us)

  -- An update without values, or with a key that is no parameter, has the status 422. Else the response
  -- is that of the values in their order: each is converted to the type of the current value, a Boolean
  -- by its word and the others by `int`, `float` and `str`, and stays as given beside None; they are
  -- served under their keys, or the first that does not convert gives the status: 422 where it is
  -- refused, 500 where it overflows.
  pub checked_updates-Answers :
      (current updates : Dict (Value F))
      → Answers current updates (checked_updates t k current updates)
  unfolding checked_updates
  checked_updates-Answers current [] = refl
  checked_updates-Answers current (u ∷ us) = elim (known-Unknown current (u ∷ us)) [
    | inl (e, h) ↦ rw (checked_updates, e) (inr (h, normalize_param_values-Normal current (u ∷ us)))
    | inr (e, h) ↦ rw (checked_updates, e) (inl (h, refl))
  ]
