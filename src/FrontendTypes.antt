-- ===== src/FrontendTypes.antt =====
-- The interface of src/Type.hpp that the operations of the analyses call.
use angie.Common.{ℕ, Bool}
use angie.Smg.{TypeSystem}

-- Each field is the method of the same name; `array_of` is CreateArrayOf, and `integer` is
-- CreateIntegerType.
pub record FrontendTypes (T : Type 0) : Type 0 where
  pub types : TypeSystem T
  pub integer : ℕ → T
  pub array_of : T → ℕ → T
  pub get_pointer_element_type : T → T
  pub is_struct : T → Bool
  pub get_struct_element_offset : T → ℕ → ℕ
