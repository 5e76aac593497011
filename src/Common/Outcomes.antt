-- ===== src/Common/Outcomes.antt =====
-- What code keeps, over the outcomes of Run: predicates on results and states, and the rules by
-- which they pass through a do block.
use mathlib.Core.Path.{◌≡◌, sym, subst}
use mathlib.Core.Bool.{Bool, true, false}
use angie.Common.Tests.{if◌then◌else◌}
use angie.Common.Run.{
  Exception, Result, value, error, Outcome, ok, raise, Run, and_then, of_result, read, pure, throw,
  ◌>>=◌, ◌>>◌,
}

-- The result and the state fit, where the code ends without an exception.
abbrev pub Ends : {S A : Type 0} → (A → S → Type 0) → Outcome S A → Type 0
Ends P (ok a s) = P a s
Ends P (raise _ _) = Unit {0}

pub Ends-and_then :
    {S A B : Type 0} (P : A → S → Type 0) (Q : B → S → Type 0) (o : Outcome S A) (f : A → Run S B)
    → Ends P o
    → ((a : A) (s : S) → P a s → Ends Q (f a s))
    → Ends Q (and_then o f)
Ends-and_then P Q (ok a s) f h next = next a s h
Ends-and_then P Q (raise _ _) f h next = tt

-- The same, where the result is known.
pub Ends-at :
    {S A B : Type 0} (P : S → Type 0) (Q : B → S → Type 0) (v : A) (o : Outcome S A)
    (f : A → Run S B)
    → Ends (λ a s. (a ≡ v) × P s) o
    → ((s : S) → P s → Ends Q (f v s))
    → Ends Q (and_then o f)
Ends-at P Q v (ok a s) f (here, h) next = subst (λ a. Ends Q (f a s)) (sym here) (next s h)
Ends-at P Q v (raise _ _) f h next = tt

pub Ends-map :
    {S A : Type 0} {P Q : A → S → Type 0} (o : Outcome S A)
    → ((a : A) (s : S) → P a s → Q a s)
    → Ends P o
    → Ends Q o
Ends-map (ok a s) f h = f a s h
Ends-map (raise _ _) f h = tt

pub Ends-ok :
    {S A : Type 0} (P : A → S → Type 0) {o : Outcome S A} (a : A) (s : S)
    → Ends P o
    → o ≡ ok a s
    → P a s
Ends-ok P a s h ends = subst (Ends P) ends h

-- `P` of the state, whether or not the code throws, and `Q` of a result.
abbrev pub Keeps : {S A : Type 0} → (S → Type 0) → (A → S → Type 0) → Outcome S A → Type 0
Keeps P Q (ok a s) = P s × Q a s
Keeps P Q (raise e s) = P s

pub Keeps-and_then :
    {S A B : Type 0} (P : S → Type 0) (Q : A → S → Type 0) (R : B → S → Type 0) (o : Outcome S A)
    (f : A → Run S B)
    → Keeps P Q o
    → ((a : A) (s : S) → P s → Q a s → Keeps P R (f a s))
    → Keeps P R (and_then o f)
Keeps-and_then P Q R (ok a s) f (h, q) next = next a s h q
Keeps-and_then P Q R (raise e s) f h next = h

abbrev pub Any : {S A : Type 0} → A → S → Type 0
Any a s = Unit {0}

-- Code that keeps `P`, on every outcome.
abbrev pub Holds : {S A : Type 0} → (S → Type 0) → Run S A → Type 0
Holds {S} P m = (s : S) → P s → Keeps P Any (m s)

module _ {S : Type 0} (P : S → Type 0) where
  pub Holds-ok : {A : Type 0} (a : A) → Holds P (ok a)
  Holds-ok a s h = (h, tt)

  pub Holds-result : {A : Type 0} (r : Result A) → Holds P (of_result r)
  Holds-result (value a) s h = (h, tt)
  Holds-result (error e) s h = h

  pub Holds-read : {A : Type 0} (f : S → Result A) → Holds P (read f)
  Holds-read f s h = Holds-result (f s) s h

  pub Holds-bind :
      {A B : Type 0} (m : Run S A) (f : A → Run S B)
      → Holds P m
      → ((a : A) → Holds P (f a))
      → Holds P (m >>= f)
  Holds-bind m f first next s h =
      Keeps-and_then P Any Any (m s) f (first s h) (λ a s' h' _. next a s' h')

  pub Holds-then :
      {A B : Type 0} (m : Run S A) (n : Run S B) → Holds P m → Holds P n → Holds P (m >> n)
  Holds-then m n first next = Holds-bind m (λ _. n) first (λ _. next)

  pub Holds-if :
      {A : Type 0} (b : Bool) (m n : Run S A) → Holds P m → Holds P n → Holds P (if b then m else n)
  Holds-if true m n then_holds else_holds = then_holds
  Holds-if false m n then_holds else_holds = else_holds

-- The same as a predicate that stays shut, so that the rules below apply to code as it is written.
pub record IsKeeping {S A : Type 0} (P : S → Type 0) (m : Run S A) : Type 0 where
  pub holds : Holds P m

module _ {S : Type 0} {P : S → Type 0} where
  module _ {A B : Type 0} where
    pub IsKeeping-bind :
        {m : Run S A} {f : A → Run S B}
        → IsKeeping P m
        → ((a : A) → IsKeeping P (f a))
        → IsKeeping P (m >>= f)
    IsKeeping-bind {m} {f} first next = record {
      holds = Holds-bind P m f first.holds (λ a. (next a).holds);
    }

    pub IsKeeping-then :
        {m : Run S A} {n : Run S B} → IsKeeping P m → IsKeeping P n → IsKeeping P (m >> n)
    IsKeeping-then {m} {n} first next = record { holds = Holds-then P m n first.holds next.holds }

  module _ {A : Type 0} where
    pub IsKeeping-if :
        (b : Bool) (m n : Run S A)
        → IsKeeping P m
        → IsKeeping P n
        → IsKeeping P (if b then m else n)
    IsKeeping-if b m n then_keeps else_keeps = record {
      holds = Holds-if P b m n then_keeps.holds else_keeps.holds;
    }

    pub IsKeeping-result : (r : Result A) → IsKeeping P (of_result r)
    IsKeeping-result r = record { holds = Holds-result P r }

    pub IsKeeping-read : (f : S → Result A) → IsKeeping P (read f)
    IsKeeping-read f = record { holds = Holds-read P f }

    pub IsKeeping-pure : (a : A) → IsKeeping P (pure a)
    IsKeeping-pure a = record { holds = Holds-ok P a }

    pub IsKeeping-throw : (e : Exception) → IsKeeping {A = A} P (throw e)
    IsKeeping-throw e = record { holds = λ s h. h }

pub ruleset keeping = (
  IsKeeping-bind, IsKeeping-then, IsKeeping-if, IsKeeping-result, IsKeeping-read, IsKeeping-pure,
  IsKeeping-throw,
)
