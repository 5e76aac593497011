-- ===== src/MemoryGraph.antt =====
-- The state of the memory graph analysis and what it does to the memory: MemoryGraphAnalysisState of
-- src/MemoryGraphAnalysis.hpp.
pub mod Frames
pub mod Operations
pub mod Calls
pub mod Arguments
pub mod Memory
pub mod Malloc
pub mod Invariant
pub mod Preserved
mod Tests
use angie.Common.{ℕ, Bool, not, ◌&&◌, Option, none, some, List, [], ◌∷◌, ◌==◌, if◌then◌else◌}
use angie.Common.Run.{
  Run, Outcome, ok, raise, Result, value, error, throw, read, pure, not_supported, logic_error,
  ◌>>=◌, ◌>>◌,
}
use angie.Values.{
  ValueId, FrontendId, AbstractionStatus, undefined, unknown, constant, CmpFlags, eq, neq,
}
use angie.ValueContainer.{ValueContainer, get_abstraction_status, get_constant_int_inner_val}
use angie.ValueContainer.Compare.{Tribool, is_true, is_zero}
use angie.Mapper.{Mapper}
use angie.FrontendTypes.{FrontendTypes}
use angie.Smg.{TypeSystem, IValueContainer}
use angie.Smg.Container.{value_container}
use angie.Smg.Object.{stack, heap}
use angie.Smg.Graph.{Graph, exists_pt_edge, write_value_at, write_value}
use angie.Smg.Graph.{free as graph_free}
use angie.Smg.Graph.Read.{allocate_region, read_value}
use angie.Smg.Graph.Read.{create_derived_pointer as graph_derived_pointer}
use angie.Analysis.{State, NodeId}
use angie.Analysis.CommonOperations.{Holder}

-- What a call saves: the mapping of the caller, the id of the returned value, and the node after it.
pub record Frame : Type 0 where
  pub mapping : Mapper
  pub ret_frontend_id : FrontendId
  pub ret_node : NodeId

-- The graph stands with the container of the state. The top of the stack is the head of the list,
-- and `stack_ret_node` is a pointer that only SetStackRetNode sets.
pub record MemoryGraph (T : Type 0) : Type 0 where
  pub graph : Graph T ValueContainer
  pub stack : List Frame
  pub stack_ret_node : Option NodeId

abbrev pub holder : {T : Type 0} → Holder (MemoryGraph T)
holder = record {
  vc = λ m. m.graph.vc;
  set_vc = λ c m. record m { graph = record m.graph { vc = c } };
}

-- The graph of a state and its container.
abbrev pub Memory : Type 0 → Type 0
Memory T = Graph T ValueContainer

module _ {T : Type 0} where
  -- `GetAbstractionStatus(v) != AbstractionStatus::Constant`
  unfoldable pub is_abstract : ValueId → Memory T → Bool
  unfolding get_abstraction_status
  is_abstract v g = elim (get_abstraction_status g.vc v) [
    | undefined ↦ Bool.true
    | unknown ↦ Bool.true
    | constant ↦ Bool.false
  ]

  -- The constant of a value, and NotSupportedException on any other value.
  unfoldable pub constant_of : ValueId → Run (Memory T) ℕ
  unfolding is_abstract get_constant_int_inner_val
  constant_of v g =
      if is_abstract v g
      then raise not_supported g
      else read (λ g. get_constant_int_inner_val g.vc v) g

  unfoldable pub realloc : Run (Memory T) ValueId
  realloc = throw not_supported

  unfoldable pub smg_is_cmp : (first second : ValueId) → CmpFlags → Memory T → Result Tribool
  unfolding exists_pt_edge
  smg_is_cmp first second flags g =
      if not (exists_pt_edge g first && exists_pt_edge g second) then value none else elim flags [
        | eq ↦ value (some (first == second))
        | neq ↦ value (some (not (first == second)))
        | _ ↦ error logic_error
      ]

module _ {T : Type 0} (fe : FrontendTypes T) where
  abbrev pub container_ops : IValueContainer T ValueContainer
  container_ops = value_container fe.types

  -- `Type::CreateArrayOf(INT8_TYPE, size)`
  abbrev pub byte_array : ℕ → T
  byte_array size = fe.array_of (fe.integer 8) size

  unfoldable pub store : (to what : ValueId) → T → Run (Memory T) (Unit {0})
  unfolding write_value
  store to what of_type = write_value fe.types to what of_type

  unfoldable pub load : ValueId → (tar_type : T) → Run (Memory T) ValueId
  unfolding read_value value_container
  load ptr tar_type = read_value fe.types container_ops ptr tar_type

  unfoldable pub allocate_on_stack : T → (count : ValueId) → Run (Memory T) ValueId
  unfolding constant_of allocate_region value_container
  allocate_on_stack type count = do
    n ← constant_of count
    if n == 1 then allocate_region fe.types container_ops type stack else throw not_supported

  unfoldable pub malloc : (size : ValueId) → Run (Memory T) ValueId
  unfolding constant_of allocate_region value_container
  malloc size = do n ← constant_of size; allocate_region fe.types container_ops (byte_array n) heap

  unfoldable pub memclear : (ptr size : ValueId) → Run (Memory T) (Unit {0})
  unfolding constant_of graph_derived_pointer value_container write_value_at
  memclear ptr size = do
    n ← constant_of size
    derived ← graph_derived_pointer fe.types container_ops ptr 0
    λ g. write_value_at fe.types derived.1 g.vc.zero_id (byte_array n) g

  unfoldable pub calloc : (size : ValueId) → Run (Memory T) ValueId
  unfolding malloc memclear
  calloc size = do mem ← malloc size; memclear mem size; pure mem

  unfoldable pub free : ValueId → Run (Memory T) (Unit {0})
  unfolding graph_free
  free ptr = graph_free fe.types ptr

  unfoldable pub memset : (ptr what size : ValueId) → Run (Memory T) (Unit {0})
  unfolding is_zero memclear constant_of
  memset ptr what size = do
    zero_value ← read (λ g. is_zero g.vc what)
    if is_true zero_value then memclear ptr size else (constant_of size >> throw not_supported)

  unfoldable pub create_derived_pointer : (base_ptr offset : ValueId) → Run (Memory T) ValueId
  unfolding graph_derived_pointer value_container
  create_derived_pointer base_ptr offset = do
    derived ← graph_derived_pointer fe.types container_ops base_ptr offset
    pure derived.0
