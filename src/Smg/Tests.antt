-- ===== src/Smg/Tests.antt =====
-- A graph with two regions on the heap and three pointers to them, and the theorems at it. The types
-- are numbers, 1 for the pointers.
use angie.Common.{arith, ℕ, ◌≡◌, refl, none, some, [], ◌∷◌, ◌==◌, ◌⊎◌, inl, if◌then◌else◌}
use mathlib.Core.Option
use angie.Common.Int.{pos, negsuc, eqb_ℤ}
use angie.Common.Dict.{ℤ_key, ℕ_key, find, assign}
use angie.Common.Run.{
  ok, raise, invalid_dereference, double_free, invalid_free, non_heap_free, undefined_behaviour,
}
use angie.Values.{next_id}
use angie.ValueContainer.{
  ValueContainer, create_val, create_const_int_val, id_of_value, insert_constant,
}
use angie.Smg.{TypeSystem, IValueContainer, ObjectId, freed_id, IsOrdinary}
use angie.Smg.Container.{value_container}
use angie.Smg.Edge.{pt_edge_at}
use angie.Smg.Object.{
  heap, Object, create_region, find_pt_edge_by_value, find_hv_edge_by_offset, handle_edge,
}
use angie.Smg.Graph.{Graph, add_handle, find_pt_in_edges, create_unknown_pt_edge, write_value, free}
use angie.Smg.Graph.Read.{read_value}
use angie.Smg.Graph.Read.{allocate_region}
use angie.Smg.Graph.Allocate.{
  after_allocation, region_of, allocate_region_lem, free-allocate_region,
}
use angie.Smg.Graph.Free.{
  IsHeapPointer, without_object, free-no_dangling, use_after_free, free-other_pointer, free-raise,
}
use angie.Smg.Graph.WriteRead.{
  IsAccess, after_write, read-write, read-write_pointer, read-write_other,
}
use angie.Smg.InEdges.{redirect_object}

abbrev types : TypeSystem ℕ
types = record {
  is_pointer = λ t. t == 1;
  get_size_of = λ t. 8;
  get_bit_width = λ t. 64;
  char_pointer = 1;
  pointer_to = λ t. 1;
}

abbrev container : IValueContainer ℕ ValueContainer
container = value_container types

abbrev no_values : ValueContainer
no_values = record {
  constants = (0, 0) ∷ [];
  constraints = [];
  constraint_ids = [];
  zero_id = 0;
  next_value_id = 40;
  next_constraint_id = 0;
}

-- A value at offset 20, and a pointer to the other region at offset 21.
abbrev first_region : Object ℕ
first_region = record (create_region (pos 1)) {
  hv_edges = (record { source_offset = 20; value = 30; value_type = 0 }) ∷ [];
  pt_edges =
      record {
        source_offset = 21;
        value = 12;
        value_type = 1;
        target_object_id = pos 2;
        target_offset = 0;
      }
      ∷ [];
}

abbrev second_region : Object ℕ
second_region = record (create_region (pos 2)) {
  hv_edges = (record { source_offset = 0; value = 31; value_type = 0 }) ∷ [];
}

-- The values 10 and 11 point to the first region, and 12 to the second.
abbrev sample : Graph ℕ ValueContainer
sample = record {
  handles = record (create_region (pos 0)) {
    pt_edges =
        handle_edge types 10 (pos 1)
        ∷ handle_edge types 11 (pos 1)
        ∷ handle_edge types 12 (pos 2)
        ∷ [];
  };
  objects = (pos 1, first_region) ∷ (pos 2, second_region) ∷ [];
  next_object_id = 3;
  vc = no_values;
}

to_first : IsHeapPointer sample 10 (handle_edge types 10 (pos 1)) first_region
unfolding find_pt_edge_by_value find create_region
to_first = record {
  known = refl;
  ordinary = (refl, refl, refl);
  there = refl;
  id_fits = refl;
  on_heap = refl;
}

free-no_dangling_example :
    (free types 10 sample ≡ ok tt (without_object (pos 1) sample))
    × ((j : ObjectId)
        → find j (without_object (pos 1) sample).objects ≡ (
            if eqb_ℤ (pos 1) j
            then none
            else Option.map (redirect_object (pos 1) freed_id) (find j sample.objects)))
    × (find_pt_in_edges (pos 1) (without_object (pos 1) sample) ≡ [])
free-no_dangling_example = free-no_dangling types container to_first

use_after_free_example :
    let g' = without_object (pos 1) sample in
    (free types 10 sample ≡ ok tt g')
    × (free types 11 g' ≡ raise double_free g')
    × (read_value types container 11 0 g' ≡ raise invalid_dereference g')
    × (write_value types 11 30 0 g' ≡ raise invalid_dereference g')
unfolding find_pt_edge_by_value
use_after_free_example = use_after_free types container to_first 11 refl refl 30 0

access_first : IsAccess sample 10 (handle_edge types 10 (pos 1)) first_region
unfolding find_pt_edge_by_value find
access_first = record { known = refl; ordinary = (refl, refl, refl); there = refl }

access_second : IsAccess sample 12 (handle_edge types 12 (pos 2)) second_region
unfolding find_pt_edge_by_value find
access_second = record { known = refl; ordinary = (refl, refl, refl); there = refl }

free-other_pointer_example :
    (g' : Graph ℕ ValueContainer) × (free types 10 sample ≡ ok tt g')
    × (find_pt_edge_by_value g'.handles 12 ≡ some (handle_edge types 12 (pos 2)))
    × (read_value types container 12 0 sample ≡ ok 31 sample)
    × (read_value types container 12 0 g' ≡ ok 31 g')
unfolding find_hv_edge_by_offset
free-other_pointer_example =
    free-other_pointer types container to_first 12 0 access_second refl refl refl

abbrev unknown_pointer : Graph ℕ ValueContainer
unknown_pointer = add_handle (handle_edge types 35 (negsuc 0)) sample

free-raise_example :
    (unknown_pointer.objects ≡ sample.objects)
    × ((invalid_free ≡ invalid_free)
        ⊎ (invalid_free ≡ double_free)
        ⊎ (invalid_free ≡ non_heap_free)
        ⊎ (invalid_free ≡ undefined_behaviour))
unfolding free create_unknown_pt_edge find_pt_edge_by_value
free-raise_example = free-raise types sample 35 refl

read-write_example :
    (write_value types 10 33 0 sample ≡ ok tt (after_write types container access_first 33 0))
    × (read_value types container 10 0 (after_write types container access_first 33 0)
        ≡ ok 33 (after_write types container access_first 33 0))
read-write_example = read-write types container access_first 33 0 refl

read-write_pointer_example :
    (write_value types 10 12 1 sample ≡ ok tt (after_write types container access_first 12 1))
    × (read_value types container 10 1 (after_write types container access_first 12 1)
        ≡ ok 12 (
            add_handle
              (pt_edge_at 0 (handle_edge types 12 (pos 2)))
              (after_write types container access_first 12 1)))
unfolding find_pt_edge_by_value
read-write_pointer_example = read-write_pointer types container access_first 12 1 refl refl

read-write_other_example :
    (g' : Graph ℕ ValueContainer) × (write_value types 10 33 0 sample ≡ ok tt g')
    × (read_value types container 12 0 sample ≡ ok 31 sample)
    × (read_value types container 12 0 g' ≡ ok 31 g')
unfolding find_hv_edge_by_offset
read-write_other_example =
    read-write_other types container access_first 33 0 0 access_second (inl refl) refl refl

-- The container after the calls of AllocateRegion: #40 is the pointer, and #41 the size.
abbrev sized : ValueContainer
sized = record no_values { constants = (0, 0) ∷ (41, 8) ∷ []; next_value_id = 42 }

abbrev allocated : Graph ℕ ValueContainer
allocated = after_allocation types container sample 40 41 sized heap

allocate_region_lem_example :
    (allocate_region types container 0 heap sample ≡ ok 40 allocated)
    × IsOrdinary (pos 3)
    × (find (pos 1) allocated.objects ≡ (
        if eqb_ℤ (pos 3) (pos 1)
        then some (region_of types container sample 41 heap)
        else find (pos 1) sample.objects))
    × (find_pt_edge_by_value allocated.handles 12 ≡ (
        if 40 == 12
        then some (handle_edge types 40 (pos 3))
        else find_pt_edge_by_value sample.handles 12))
unfolding value_container create_val create_const_int_val id_of_value insert_constant next_id assign
    find find_pt_edge_by_value
allocate_region_lem_example =
    allocate_region_lem types container sample 0 heap refl refl refl refl (omega arith) (pos 1) 12

free-allocate_region_example :
    (allocate_region types container 0 heap sample ≡ ok 40 allocated)
    × (free types 40 allocated ≡ ok tt (without_object (pos 3) allocated))
unfolding value_container create_val create_const_int_val id_of_value insert_constant next_id assign
    find find_pt_edge_by_value
free-allocate_region_example =
    free-allocate_region types container sample 0 refl refl refl refl (omega arith)
