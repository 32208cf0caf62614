-- ===== src/Db/Query/Chronicle.antt =====
-- ORDER BY … ASC: the rows of a descending order, reversed.
use autr_back.Prelude.{ℕ, ◌≤◌, sym, List, [], ◌∷◌, ◌++◌, All, All-append, subst}
use mathlib.Core.List.{Perm, perm_middle, append-nil}
use mathlib.Core.List.Perm
use autr_back.Db.Query.{sort_desc, IsDescending, sort_desc-perm, sort_desc-IsDescending}

-- `reversed(xs)`
abbrev pub reverse {ℓ} : {A : Type ℓ} → List A → List A
reverse [] = []
reverse (x ∷ xs) = reverse xs ++ x ∷ []

module _ {ℓ} {A : Type ℓ} where
  abbrev pub IsAscending : (A → ℕ) → List A → Type 0
  IsAscending key [] = Unit
  IsAscending key (p ∷ ps) = All (λ q. key p ≤ key q) ps × IsAscending key ps

  unfoldable pub oldest_first : (A → ℕ) → List A → List A
  unfolding sort_desc
  oldest_first key rows = reverse (sort_desc key rows)

  reverse-perm : (xs : List A) → Perm (reverse xs) xs
  reverse-perm [] = Perm.rfl
  reverse-perm (x ∷ xs) =
      Perm.trans (perm_middle (reverse xs) [])
        (Perm.cons x (subst (λ l. Perm l xs) (sym (append-nil (reverse xs))) (reverse-perm xs)))

  module _ (key : A → ℕ) where
    reverse-All :
        (n : ℕ) (xs : List A) → All (λ q. key q ≤ n) xs → All (λ q. key q ≤ n) (reverse xs)
    reverse-All n [] h = tt
    reverse-All n (x ∷ xs) (hx, h) =
        All-append (λ q. key q ≤ n) (reverse xs) (x ∷ []) (reverse-All n xs h) (hx, tt)

    IsAscending-append :
        (xs : List A) (x : A)
        → All (λ q. key q ≤ key x) xs
        → IsAscending key xs
        → IsAscending key (xs ++ x ∷ [])
    IsAscending-append [] x h a = (tt, tt)
    IsAscending-append (y ∷ ys) x (hy, h) (below, a) =
        (All-append (λ q. key y ≤ key q) ys (x ∷ []) below (hy, tt), IsAscending-append ys x h a)

    reverse-IsAscending : (xs : List A) → IsDescending key xs → IsAscending key (reverse xs)
    reverse-IsAscending [] h = tt
    reverse-IsAscending (x ∷ xs) (below, h) =
        IsAscending-append (reverse xs) x (reverse-All (key x) xs below) (reverse-IsAscending xs h)

    pub oldest_first-Chronicle :
        (rows : List A)
        → Perm (oldest_first key rows) rows × IsAscending key (oldest_first key rows)
    unfolding oldest_first
    oldest_first-Chronicle rows = (
      Perm.trans (reverse-perm (sort_desc key rows)) (sort_desc-perm key rows),
      reverse-IsAscending (sort_desc key rows) (sort_desc-IsDescending key rows),
    )
