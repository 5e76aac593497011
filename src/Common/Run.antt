-- ===== src/Common/Run.antt =====
-- C++ code that reads and writes a state and may throw. A thrown exception keeps the state that
-- the code had reached.
use mathlib.Core.Option.{Option, none, some}

-- The exceptions that the modelled code throws, and the faults that C++ leaves undefined.
pub data Exception : Type 0 where
  runtime_error out_of_range : Exception
  null_dereference invalid_dereference : Exception
  invalid_free double_free non_heap_free : Exception
  branch_exception analysis_error not_supported : Exception
  assertion_failed logic_error : Exception
  undefined_behaviour : Exception

-- What a `const` member function yields.
pub data Result (A : Type 0) : Type 0 where
  value : A → Result A
  error : Exception → Result A

pub data Outcome (S A : Type 0) : Type 0 where
  ok : A → S → Outcome S A
  raise : Exception → S → Outcome S A

abbrev pub Run : Type 0 → Type 0 → Type 0
Run S A = S → Outcome S A

module _ {S A : Type 0} where
  abbrev pub pure : A → Run S A
  pure = ok

  abbrev pub throw : Exception → Run S A
  throw = raise

  abbrev pub of_result : Result A → Run S A
  of_result (value a) = ok a
  of_result (error e) = raise e

  -- The call of a `const` member function.
  abbrev pub read : (S → Result A) → Run S A
  read f s = of_result (f s) s

module _ {S A B : Type 0} where
  abbrev pub and_then : Outcome S A → (A → Run S B) → Outcome S B
  and_then (ok a s) k = k a s
  and_then (raise e s) k = raise e s

  infixl 5 ◌>>=◌ ◌>>◌
  abbrev pub ◌>>=◌ : Run S A → (A → Run S B) → Run S B
  ◌>>=◌ m k s = and_then (m s) k

  abbrev pub ◌>>◌ : Run S A → Run S B → Run S B
  ◌>>◌ m n s = and_then (m s) (λ _. n)

module _ {A B : Type 0} where
  abbrev pub then_value : Result A → (A → Result B) → Result B
  then_value (value a) k = k a
  then_value (error e) k = error e

-- `find` and a throw on a missing entry, and `at`.
abbrev pub or_throw : {A : Type 0} → Exception → Option A → Result A
or_throw e none = error e
or_throw e (some a) = value a
