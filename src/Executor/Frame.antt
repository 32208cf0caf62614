-- ===== src/Executor/Frame.antt =====
-- The closing of positions changes nothing but the database.
use autr_back.Prelude.{◌≡◌, refl, ◌∙◌, String, List, [], ◌∷◌, none}
use autr_back.Prelude.Action.{Outcome, ok, raised, Action, pure, catch, ◌>>=◌}
use autr_back.Float.Core.{Float}
use autr_back.Db.Rows.{Position}
use autr_back.Services.World.{Database, Exchange, World, on_db}
use autr_back.Executor.Sell.{close_each, close_open}

module _ {D X : Type 0} where
  -- The world `v` is `w` but for its database.
  abbrev pub DbApart : World D X → World D X → Type 0
  DbApart w v = (v.redis ≡ w.redis) × (v.outside ≡ w.outside)

  abbrev pub IsDbOnly : {A : Type 0} → Action (World D X) A → Type 0
  IsDbOnly m = (w : World D X) → DbApart w (m w).1

  -- The world after a step with outcome `o`, and after what follows it.
  then-DbApart :
      {A B : Type 0} (w : World D X) (o : Outcome A × World D X) (k : A → Action (World D X) B)
      → DbApart w o.1
      → ((a : A) → IsDbOnly (k a))
      → DbApart w (((λ _. o) >>= k) w).1
  then-DbApart w (ok a, v) k h rest = (((rest a v).0 ∙ h.0), ((rest a v).1 ∙ h.1))
  then-DbApart w (raised e, v) k h rest = h

  >>=-IsDbOnly :
      {A B : Type 0} (m : Action (World D X) A) (k : A → Action (World D X) B)
      → IsDbOnly m
      → ((a : A) → IsDbOnly (k a))
      → IsDbOnly (m >>= k)
  >>=-IsDbOnly m k h rest w = then-DbApart w (m w) k (h w) rest

  -- What `except: pass` leaves.
  caught :
      (w : World D X) (o : Outcome (Unit {0}) × World D X)
      → DbApart w o.1
      → let (r, v) = catch (λ _. o) (λ _. pure tt) w in (r ≡ ok tt) × DbApart w v
  caught w (ok tt, v) h = (refl, h)
  caught w (raised e, v) h = (refl, h)

module _ {F D X : Type 0} ⦃f : Float F⦄ (db : Database F D) (ex : Exchange F X) where
  pub close_each-IsDbOnly :
      (price : F) (ps : List (Position F)) → IsDbOnly (close_each {X = X} db ex price ps)
  unfolding close_each
  close_each-IsDbOnly price [] = λ w. (refl, refl)
  close_each-IsDbOnly price (p ∷ ps) =
      >>=-IsDbOnly (on_db (db.close_position p.id price none)) (λ _. close_each db ex price ps)
        (λ w. (refl, refl)) (λ _. close_each-IsDbOnly price ps)

  -- The second `try` of a sale never raises.
  pub close_open_lem :
      (symbol : String) (price : F) (w : World D X)
      → let (r, v) = close_open db ex symbol price w in (r ≡ ok tt) × DbApart w v
  unfolding close_open
  close_open_lem symbol price w = caught w _ (
      >>=-IsDbOnly (on_db (db.get_open_positions symbol)) (close_each db ex price)
        (λ v. (refl, refl)) (close_each-IsDbOnly price) w)
