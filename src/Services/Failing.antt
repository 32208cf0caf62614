-- ===== src/Services/Failing.antt =====
-- What holds after a call of the SQLite store that may fail, and what follows it.
use autr_back.Prelude.{Option, none, some}
use autr_back.Prelude.Action.{Action, Exc, Outcome, raised, ◌>>=◌}
use autr_back.Services.World.{World, on_db}
use autr_back.Services.Providers.{Step, Faults, begun, ended, may_fail}

module _ {κ} {A B D X : Type 0} (k : A → Action (World D X) B) (w : World D X)
    (P : Outcome B × World D X → Type κ) where
  ended_bind :
      (a : A) (d : D) (o : Option Exc)
      → ((e : Exc) → P (raised e, record w { db = d }))
      → P (k a (record w { db = d }))
      → P (((λ v. let (r, d') = ended a d o in (r, record w { db = d' })) >>= k) w)
  ended_bind a d none late done = done
  ended_bind a d (some e) late done = late e

  begun_bind :
      (m : D → A × D) (o : Option Exc) (after : D → Option Exc)
      → ((e : Exc) → P (raised e, w))
      → ((e : Exc) → P (raised e, record w { db = (m w.db).1 }))
      → P (k (m w.db).0 (record w { db = (m w.db).1 }))
      → P ((on_db (begun o (λ c. let (a, c') = m c in ended a c' (after c'))) >>= k) w)
  begun_bind m none after early late done =
      ended_bind (m w.db).0 (m w.db).1 (after (m w.db).1) late done
  begun_bind m (some e) after early late done = early e

  -- Three ways: nothing was written, all was and the call raised, or it went well.
  pub may_fail_bind :
      (faults : Faults D) (s : Step) (m : D → A × D)
      → ((e : Exc) → P (raised e, w))
      → ((e : Exc) → P (raised e, record w { db = (m w.db).1 }))
      → P (k (m w.db).0 (record w { db = (m w.db).1 }))
      → P ((on_db (may_fail faults s m) >>= k) w)
  may_fail_bind faults s m early late done =
      begun_bind m (faults.before s w.db) (faults.after s) early late done
