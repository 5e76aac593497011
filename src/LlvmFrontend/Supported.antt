-- ===== src/LlvmFrontend/Supported.antt =====
-- The exceptions for what LlvmCfgParser of src/LlvmFrontend.cpp does not support, and no others.
use text.Mathlib.Text.{starts_with}
use angie.Common.{◌≡◌, ◌⊎◌, refl, Bool, true, false, Option, none, some, if◌then◌else◌, inl, inr}
use angie.Common.Dict.{ℕ_key}
use angie.Common.Run.{
  Exception, not_supported, logic_error, Outcome, ok, raise, Run, Result, value, error, then_value,
  and_then,
}
use angie.Values.{FrontendId}
use angie.Analysis.Instructions.{noop_instr, memset_instr}
use angie.Llvm.{Llvm, Opcode, fcmp, call}
use angie.LlvmFrontend.Operands.{
  get_operation_for, get_oper_args_for_instr, operation_for_opcode, operation_for_call,
  operation_for_intrinsic, operation_for_function, option_arg,
}

-- The exceptions for instructions that the parser does not support.
abbrev pub IsUnsupported : Exception → Type 0
IsUnsupported e = (e ≡ not_supported) ⊎ (e ≡ logic_error)

-- The code ends as `P` says, or rejects an instruction.
abbrev pub Ensures : {S A : Type 0} → (A → S → Type 0) → Outcome S A → Type 0
Ensures P (ok a s) = P a s
Ensures P (raise e _) = IsUnsupported e

pub Ensures-and_then :
    {S A B : Type 0} (P : A → S → Type 0) (Q : B → S → Type 0) (o : Outcome S A) (f : A → Run S B)
    → Ensures P o
    → ((a : A) (s : S) → P a s → Ensures Q (f a s))
    → Ensures Q (and_then o f)
Ensures-and_then P Q (ok a s) f h next = next a s h
Ensures-and_then P Q (raise e _) f h next = h

pub Ensures-map :
    {S A : Type 0} {P Q : A → S → Type 0}
    → ((a : A) (s : S) → P a s → Q a s)
    → (o : Outcome S A) → Ensures P o
    → Ensures Q o
Ensures-map f (ok a s) h = f a s h
Ensures-map f (raise e s) h = h

pub Ensures-ok :
    {S A : Type 0} (P : A → S → Type 0) {o : Outcome S A} (a : A) (s : S)
    → o ≡ ok a s
    → P a s
    → Ensures P o
Ensures-ok P a s e h = rw (Ensures, e) h

abbrev pub Supports : {A : Type 0} → Result A → Type 0
Supports (value a) = Unit {0}
Supports (error e) = IsUnsupported e

Supports-if :
    {A : Type 0} (b : Bool) (r r' : Result A)
    → Supports r
    → Supports r'
    → Supports (if b then r else r')
Supports-if true r r' h h' = h
Supports-if false r r' h h' = h'

intrinsic-Supports :
    (a b : Bool)
    → Supports
        (if a then value noop_instr else if b then value memset_instr else error not_supported)
intrinsic-Supports true b = tt
intrinsic-Supports false true = tt
intrinsic-Supports false false = inl refl

Supports-then_value :
    {A B : Type 0} (r : Result A) (f : A → B)
    → Supports r
    → Supports (then_value r (λ a. value (f a)))
Supports-then_value (value a) f h = tt
Supports-then_value (error e) f h = h

module _ {T : Type 0} (llvm : Llvm T) where
  operation_for_intrinsic-Supports :
      (func : FrontendId) → Supports (operation_for_intrinsic llvm func)
  unfolding operation_for_intrinsic
  operation_for_intrinsic-Supports func =
      intrinsic-Supports (starts_with (llvm.get_name func) "llvm.dbg")
        (starts_with (llvm.get_name func) "llvm.memset")

  operation_for_call-Supports :
      (called : Option FrontendId) → Supports (operation_for_call llvm called)
  unfolding operation_for_call
  operation_for_call-Supports none = tt
  operation_for_call-Supports (some func) =
      Supports-if (llvm.is_intrinsic func) (operation_for_intrinsic llvm func)
        (value (operation_for_function llvm func)) (operation_for_intrinsic-Supports func) tt

  operation_for_opcode-Supports :
      (opcode : Opcode) (instr : FrontendId) → Supports (operation_for_opcode llvm opcode instr)
  unfolding operation_for_opcode
  operation_for_opcode-Supports call instr =
      operation_for_call-Supports (llvm.get_called_function instr)
  operation_for_opcode-Supports _ instr = tt

  pub get_operation_for-Supports : (instr : FrontendId) → Supports (get_operation_for llvm instr)
  unfolding get_operation_for
  get_operation_for-Supports instr = operation_for_opcode-Supports (llvm.get_opcode instr) instr

  option_arg-Supports :
      (opcode : Opcode) (instr : FrontendId) → Supports (option_arg llvm opcode instr)
  unfolding option_arg
  option_arg-Supports fcmp instr = inr refl
  option_arg-Supports _ instr = tt

  pub get_oper_args_for_instr-Supports :
      (instr : FrontendId) → Supports (get_oper_args_for_instr llvm instr)
  unfolding get_oper_args_for_instr
  get_oper_args_for_instr-Supports instr =
      Supports-then_value (option_arg llvm (llvm.get_opcode instr) instr) _
        (option_arg-Supports (llvm.get_opcode instr) instr)
