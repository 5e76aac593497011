-- ===== src/Smg.antt =====
-- Symbolic memory graphs: src/Smg/. This file has the ids of objects and the interfaces that the
-- graph takes from the rest of the program.
pub mod Abstraction
pub mod Closed
pub mod Container
pub mod Edge
pub mod Object
pub mod Graph
pub mod InEdges
pub mod WellFormed
mod Tests
use angie.Common.{ℕ, ◌≡◌, Bool, false}
use angie.Common.Int.{ℤ, pos, negsuc, eqb_ℤ}
use angie.Common.Run.{Run}
use angie.Values.{ValueId, ArithFlags}

-- ObjectId wraps an int64_t. The ids 0, -1 and -2 stand for null, unknown and freed memory.
abbrev pub ObjectId : Type 0
ObjectId = ℤ

abbrev pub null_id : ObjectId
null_id = pos 0

abbrev pub unknown_id : ObjectId
unknown_id = negsuc 0

abbrev pub freed_id : ObjectId
freed_id = negsuc 1

-- An object that is none of the three special ones.
abbrev pub IsOrdinary : ObjectId → Type 0
IsOrdinary id =
    (eqb_ℤ id null_id ≡ false) × (eqb_ℤ id unknown_id ≡ false) × (eqb_ℤ id freed_id ≡ false)

-- src/Type.hpp, which wraps the types of the front end.
pub record TypeSystem (T : Type 0) : Type 0 where
  pub is_pointer : T → Bool
  pub get_size_of : T → ℕ
  pub get_bit_width : T → ℕ
  pub char_pointer : T
  pub pointer_to : T → T

-- What the graph calls of IValueContainer (src/Values.hpp). `V` is the container's state.
pub record IValueContainer (T V : Type 0) : Type 0 where
  pub create_val : T → Run V ValueId
  pub create_const_int_val : ℕ → Run V ValueId
  pub add : ValueId → ValueId → T → ArithFlags → Run V ValueId
