-- ===== src/Redis/Queue.antt =====
-- The bounded queue against the list of all that was pushed.
use mathlib.Core.List.{append_assoc, append-nil}
use native.Mathlib.Nat.{zero-add}
use Prim.Native.Nat.add
use autr_back.Prelude.{
  ℕ, zero, suc, ◌-◌, ◌+◌, ◌≤◌, ◌≡◌, sym, String, List, [], ◌∷◌, ◌++◌, none, some, length, drop,
  length-append, length-drop, drop-append, leb, if◌then◌else◌, Bool-cases, inl, inr, arith, ◌∙◌, ap,
  subst,
}
use autr_back.Prelude.Dict.{lookup-insert_self}
use autr_back.Redis.{Redis, queue_max_len, queue_of, queue_push}

-- `queue_push` for each value in turn.
pub push_all : String → List String → Redis → Redis
push_all key [] r = r
push_all key (v ∷ vs) r = push_all key vs (queue_push key v r)

abbrev pub keep_last {ℓ} : {A : Type ℓ} → ℕ → List A → List A
keep_last n xs = drop (length xs - n) xs

module _ {ℓ} {A : Type ℓ} where
  drop-drop : (a b : ℕ) (xs : List A) → drop a (drop b xs) ≡ drop (b + a) xs
  drop-drop a zero xs = rw zero-add
  drop-drop zero (suc b) [] = rw add.suc
  drop-drop (suc a) (suc b) [] = rw add.suc
  drop-drop a (suc b) (x ∷ xs) = rw add.suc (drop-drop a b xs)

  keep_last_short : (n : ℕ) (xs : List A) → length xs ≤ n → keep_last n xs ≡ xs
  keep_last_short n xs h = let e : length xs - n ≡ 0 = omega arith in ap (λ i. drop i xs) e

  keep_last-keep_last :
      (n : ℕ) (xs ys : List A) → keep_last n (keep_last n xs ++ ys) ≡ keep_last n (xs ++ ys)
  keep_last-keep_last n xs ys =
      let k = length xs - n in
      let zs = xs ++ ys in
      rw (sym (drop-append k xs ys (omega arith)), drop-drop (length (drop k zs) - n) k zs)
        (ap (λ i. drop i zs) (omega (arith, length-drop k zs, length-append xs ys)))

-- The queue that one push leaves.
abbrev pub pushed : List String → String → List String
pushed q v = (if leb queue_max_len (length q) then drop 1 q else q) ++ (v ∷ [])

pub queue_of-queue_push :
    (key v : String) (r : Redis) → queue_of key (queue_push key v r) ≡ pushed (queue_of key r) v
unfolding queue_push
queue_of-queue_push key v r =
    ap (elim [ none ↦ [] | some q ↦ q ])
      (lookup-insert_self key (pushed (queue_of key r) v) r.queues)

pushed-keep_last :
    (q : List String) (v : String)
    → length q ≤ queue_max_len
    → pushed q v ≡ keep_last queue_max_len (q ++ v ∷ [])
pushed-keep_last q v h = elim (Bool-cases (leb queue_max_len (length q))) [
  | inl full ↦
      let e : ◌≡◌ {A = ℕ} 1 (length (q ++ v ∷ []) - queue_max_len) =
        ground (arith, length-append q (v ∷ [])) in
      rw (full, sym (drop-append 1 q (v ∷ []) (ground arith))) (ap (λ i. drop i (q ++ v ∷ [])) e)
  | inr room ↦
      let e : length (q ++ v ∷ []) ≤ queue_max_len = ground (arith, length-append q (v ∷ [])) in
      rw room (sym (keep_last_short queue_max_len (q ++ v ∷ []) e))
]

length-keep_last {ℓ} : {A : Type ℓ} (n : ℕ) (xs : List A) → length (keep_last n xs) ≤ n
length-keep_last n xs = omega (arith, length-drop (length xs - n) xs)

-- After a list of pushes onto a queue within its bound, the queue is what it held followed by what
-- was pushed, less the oldest items beyond the newest 200; so it stays within the bound.
pub push_all-keep_last :
    (key : String) (vs : List String) (r : Redis)
    → length (queue_of key r) ≤ queue_max_len
    → (queue_of key (push_all key vs r) ≡ keep_last queue_max_len (queue_of key r ++ vs))
      × (length (queue_of key (push_all key vs r)) ≤ queue_max_len)
unfolding push_all
push_all-keep_last key [] r h =
    (rw append-nil (sym (keep_last_short queue_max_len (queue_of key r) h)), h)
push_all-keep_last key (v ∷ vs) r h =
    let q = queue_of key r in
    let e : queue_of key (queue_push key v r) ≡ keep_last queue_max_len (q ++ v ∷ []) =
      queue_of-queue_push key v r ∙ pushed-keep_last q v h in
    let (same, short) = push_all-keep_last key vs (queue_push key v r) (
      subst (λ l. length l ≤ queue_max_len) (sym e)
        (length-keep_last queue_max_len (q ++ v ∷ []))) in
    (
      same
          ∙ ap (λ l. keep_last queue_max_len (l ++ vs)) e
          ∙ keep_last-keep_last queue_max_len (q ++ v ∷ []) vs
          ∙ ap (keep_last queue_max_len) (append_assoc q (v ∷ []) vs),
      short,
    )
