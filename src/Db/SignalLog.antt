-- ===== src/Db/SignalLog.antt =====
-- The table `signal_log`: `add_signal_log`, `get_signal_logs` and `cleanup_old_signal_logs`. Python's
-- values `J` and the `json` module are parameters.
use autr_back.Prelude.{
  ℕ, suc, ◌+◌, ◌≡◌, refl, length-filter_parts, filter-not, ◌-◌, ◌*◌, ltb, Bool, true, ◌&&◌, not,
  Option, none, some, String, str_eq, List, [], ◌∷◌, ◌++◌, map, filter, length, if◌then◌else◌,
}
use autr_back.Prelude.Dict.{Dict, lookup}
use autr_back.Float.Core.{Float, nought}
use autr_back.Db.Query.{page}

pub record SignalRow (F : Type 0) : Type 0 where
  pub id : ℕ
  pub ts : ℕ
  pub symbol : String
  pub strategy : String
  pub signal : String
  pub reason : String
  pub close : F
  pub indicators_json : String
  pub params_json : String
  pub trailing_stop : Option F
  pub in_position : Bool

-- The table, its AUTOINCREMENT counter, and what `datetime('now')` reads, in seconds.
pub record SignalLog (F : Type 0) : Type 0 where
  pub rows : List (SignalRow F)
  pub last_id : ℕ
  pub now : ℕ

-- The arguments of `add_signal_log`; without indicators or parameters a dict is empty.
pub record NewSignal (F J : Type 0) : Type 0 where
  pub symbol : String
  pub strategy : String
  pub signal : String
  pub reason : String
  pub indicators : Dict F
  pub trailing_stop : Option F
  pub in_position : Bool
  pub params : Dict J

-- A row as it is returned, with its texts read.
pub record SignalEntry (F J : Type 0) : Type 0 where
  pub row : SignalRow F
  pub indicators : Dict F
  pub params : Dict J

-- A condition for an argument that is given and not empty.
abbrev pub matches : Option String → String → Bool
matches none field = true
matches (some s) field = if str_eq s "" then true else str_eq field s

abbrev pub or_empty {ℓ} : {A : Type ℓ} → Option (Dict A) → Dict A
or_empty none = []
or_empty (some d) = d

abbrev pub day_seconds : ℕ
day_seconds = 86400

module _ {F J : Type 0} ⦃f : Float F⦄ (dumps_floats : Dict F → String)
    (loads_floats : String → Option (Dict F)) (dumps : Dict J → String)
    (loads : String → Option (Dict J)) where
  unfoldable pub add_signal_log : NewSignal F J → SignalLog F → SignalLog F
  add_signal_log n log =
      let row : SignalRow F = record {
        id = suc log.last_id;
        ts = log.now;
        symbol = n.symbol;
        strategy = n.strategy;
        signal = n.signal;
        reason = n.reason;
        close = (elim (lookup "close" n.indicators) [ none ↦ nought | some c ↦ c ]);
        indicators_json = dumps_floats n.indicators;
        params_json = dumps n.params;
        trailing_stop = n.trailing_stop;
        in_position = n.in_position;
      } in
      record log { rows = log.rows ++ row ∷ []; last_id = suc log.last_id }

  abbrev pub entry_of : SignalRow F → SignalEntry F J
  entry_of r = record {
    row = r;
    indicators = or_empty (loads_floats r.indicators_json);
    params = or_empty (loads r.params_json);
  }

  abbrev pub is_wanted : Option String → Option String → Option String → SignalRow F → Bool
  is_wanted strategy symbol signal r =
      matches strategy r.strategy && (matches symbol r.symbol && matches signal r.signal)

  unfoldable pub get_signal_logs :
      Option String → Option String → ℕ → Option String → SignalLog F → List (SignalEntry F J)
  unfolding page
  get_signal_logs strategy symbol limit signal log =
      map entry_of (page limit (λ r. r.ts) (filter (is_wanted strategy symbol signal) log.rows))

module _ {F : Type 0} where
  -- `ts < datetime('now', '-N days')`
  abbrev pub is_old : ℕ → ℕ → SignalRow F → Bool
  is_old retention_days now r = ltb r.ts (now - retention_days * day_seconds)

  -- The number of rows deleted, and the rest.
  unfoldable pub cleanup_old_signal_logs : ℕ → SignalLog F → ℕ × SignalLog F
  cleanup_old_signal_logs retention_days log = (
    length (filter (is_old retention_days log.now) log.rows),
    record log { rows = filter (λ r. not (is_old retention_days log.now r)) log.rows },
  )

  -- A cleaning deletes the old rows and counts them; a second one at the same time finds none.
  pub cleanup_old_signal_logs_twice :
      (retention_days : ℕ) (log : SignalLog F)
      → let (deleted, rest) = cleanup_old_signal_logs retention_days log in
        (deleted + length rest.rows ≡ length log.rows)
        × (cleanup_old_signal_logs retention_days rest ≡ (0, rest))
  unfolding cleanup_old_signal_logs
  cleanup_old_signal_logs_twice retention_days log =
      let old = is_old retention_days log.now in
      let (none_left, same) = filter-not old log.rows in
      (length-filter_parts old log.rows, rw (none_left, same) refl)
