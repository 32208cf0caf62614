-- ===== src/Db/Query.antt =====
-- A query of one table: ORDER BY … DESC and LIMIT, with what a page of rows is.
pub mod Chronicle
use autr_back.Prelude.{
  ℕ, ◌≤◌, ◌≡◌, ◌⊎◌, inl, inr, sym, subst, List, [], ◌∷◌, ◌++◌, take, drop, length, All, All-impl,
  ltb, Bool-cases, if◌then◌else◌, arith, take-append-drop, length-take_full,
}
use mathlib.Core.List.{Perm}
use mathlib.Core.List.Perm

module _ {ℓ} {A : Type ℓ} where
  -- Rows with one key may come in any order: here the older row comes first.
  unfoldable pub insert_desc : (A → ℕ) → A → List (A) → List (A)
  insert_desc key p [] = p ∷ []
  insert_desc key p (q ∷ qs) = if ltb (key p) (key q) then q ∷ insert_desc key p qs else p ∷ q ∷ qs

  unfoldable pub sort_desc : (A → ℕ) → List (A) → List (A)
  unfolding insert_desc
  sort_desc key [] = []
  sort_desc key (p ∷ ps) = insert_desc key p (sort_desc key ps)

  -- The first `limit` rows, the greatest key first.
  unfoldable pub page : ℕ → (A → ℕ) → List A → List A
  unfolding sort_desc
  page limit key rows = take limit (sort_desc key rows)

  abbrev pub IsDescending : (A → ℕ) → List A → Type 0
  IsDescending key [] = Unit
  IsDescending key (p ∷ ps) = All (λ q. key q ≤ key p) ps × IsDescending key ps

  -- `found` is the first `limit` of the `rows`, in descending order: what is left out comes after it
  -- in that order, and something is left out only of a full page.
  abbrev pub Pages : (A → ℕ) → ℕ → List (A) → List (A) → Type ℓ
  Pages key limit rows found =
      (rest : List (A)) × Perm (found ++ rest) rows
      × IsDescending key (found ++ rest)
      × (length found ≤ limit)
      × ((rest ≡ []) ⊎ (length found ≡ limit))

module _ {ℓ} {A : Type ℓ} (key : A → ℕ) where
  insert_desc-perm : (p : A) (qs : List (A)) → Perm (insert_desc key p qs) (p ∷ qs)
  unfolding insert_desc
  insert_desc-perm p [] = Perm.rfl
  insert_desc-perm p (q ∷ qs) = elim (Bool-cases (ltb (key p) (key q))) [
    | inl e ↦ rw e (Perm.trans (Perm.cons q (insert_desc-perm p qs)) (Perm.swap p q qs))
    | inr e ↦ rw e Perm.rfl
  ]

  pub sort_desc-perm : (ps : List (A)) → Perm (sort_desc key ps) ps
  unfolding sort_desc
  sort_desc-perm [] = Perm.rfl
  sort_desc-perm (p ∷ ps) =
      Perm.trans (insert_desc-perm p (sort_desc key ps)) (Perm.cons p (sort_desc-perm ps))

  insert_desc-All {κ} :
      (P : A → Type κ) (p : A) (qs : List (A)) → P p → All P qs → All P (insert_desc key p qs)
  unfolding insert_desc
  insert_desc-All P p [] hp h = (hp, h)
  insert_desc-All P p (q ∷ qs) hp (hq, h) = elim (Bool-cases (ltb (key p) (key q))) [
    | inl e ↦ rw e (hq, insert_desc-All P p qs hp h)
    | inr e ↦ rw e (hp, (hq, h))
  ]

  insert_desc-IsDescending :
      (p : A) (qs : List (A)) → IsDescending key qs → IsDescending key (insert_desc key p qs)
  unfolding insert_desc
  insert_desc-IsDescending p [] h = (tt, tt)
  insert_desc-IsDescending p (q ∷ qs) (hq, h) = elim (Bool-cases (ltb (key p) (key q))) [
    | inl e ↦ rw e (
      insert_desc-All (λ r. key r ≤ key q) p qs (ground arith) hq,
      insert_desc-IsDescending p qs h,
    )
    | inr e ↦
        let le : key q ≤ key p = ground arith in
        rw e ((le, All-impl _ _ qs (λ r t. omega arith) hq), (hq, h))
  ]

  pub sort_desc-IsDescending : (ps : List (A)) → IsDescending key (sort_desc key ps)
  unfolding sort_desc
  sort_desc-IsDescending [] = tt
  sort_desc-IsDescending (p ∷ ps) =
      insert_desc-IsDescending p (sort_desc key ps) (sort_desc-IsDescending ps)

  pub page-Pages : (limit : ℕ) (rows : List A) → Pages key limit rows (page limit key rows)
  unfolding page
  page-Pages limit rows =
      let sorted = sort_desc key rows in
      let (short, full) = length-take_full limit sorted in
      let whole = sym (take-append-drop limit sorted) in
      (
        drop limit sorted,
        subst (λ l. Perm l rows) whole (sort_desc-perm rows),
        subst (IsDescending key) whole (sort_desc-IsDescending rows),
        short,
        full,
      )
