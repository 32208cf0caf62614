-- ===== src/Redis/Keys.antt =====
-- Keys under different prefixes differ, and one prefix gives one key for each name.
use Prim.Native.Char.{code}
use Prim.Native.String.{◌++◌ as str_append}
use text.Mathlib.TextLemmas.{cons-append}
use autr_back.Prelude.{ℕ, ◌≡◌, ◌≢◌, ap, String, arith}
use autr_back.Redis.{processed_key}

abbrev pub executor_lock_key : String → String
executor_lock_key symbol = str_append "lock:executor:" symbol

abbrev pub funding_arb_lock_key : String → String
funding_arb_lock_key symbol = str_append "lock:funding_arb:" symbol

abbrev first_code : String → ℕ
first_code String.[] = 0
first_code (String.◌∷◌ c s) = code c

first_code-executor_lock_key : (s : String) → first_code (executor_lock_key s) ≡ b'l'
first_code-executor_lock_key s = ap first_code (cons-append "l" "ock:executor:" s)

first_code-processed_key : (s : String) → first_code (processed_key s) ≡ b'p'
first_code-processed_key s = ap first_code (cons-append "p" "rocessed:" s)

-- A lock is never taken for a signal's mark.
pub executor_lock_key-ne-processed_key :
    (symbol sig_id : String) → executor_lock_key symbol ≢ processed_key sig_id
executor_lock_key-ne-processed_key symbol sig_id e =
    omega
      (arith, ap first_code e, first_code-executor_lock_key symbol, first_code-processed_key sig_id)
