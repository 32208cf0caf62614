-- ===== src/PositionService/Closing.antt =====
-- What closing a position does to the SQLite store.
use autr_back.Prelude.{Bool}
use autr_back.Prelude.Action.{Action, Exc, pure, message}
use autr_back.Float.Core.{Float}
use autr_back.Db.Rows.{Db}
use autr_back.Services.World.{World}
use autr_back.Services.Providers.{Faults}
use autr_back.PositionService as Service
use autr_back.PositionService.{BookResult, order_refused, not_found, book_failed}

module _ {F X : Type 0} ⦃f : Float F⦄ (faults : Faults (Db F)) (paper : Bool) where
  -- What `except` makes of an exception.
  abbrev told : Exc → Action (World (Db F) X) (BookResult F)
  told e = pure (book_failed (message e))
