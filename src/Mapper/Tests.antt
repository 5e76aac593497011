-- ===== src/Mapper/Tests.antt =====
-- The theorems about the maps, at a map with one entry.
use angie.Common.{ℕ, ◌+◌, ◌≡◌, [], ◌∷◌, ◌==◌, if◌then◌else◌}
use angie.Common.Dict.{ℕ_key}
use angie.Common.Run.{value, ok}
use angie.Mapper.{
  Mapper, get_value_id, link_to_value_id, Linking, create_or_get_value_id, IsLinked,
  create_or_get_value_id_lem, get_value_id-link,
}

abbrev one_entry : Mapper
one_entry = (3, 30) ∷ []

get_value_id-link_example :
    get_value_id (link_to_value_id 4 40 one_entry) 3
    ≡ (if 4 == 3 then value 40 else get_value_id one_entry 3)
get_value_id-link_example = get_value_id-link 4 3 40 one_entry

-- A container that counts the values it has created.
abbrev linking : Linking ℕ
linking = record { mapper = one_entry; vc = 50 }

create_or_get_value_id_lem_example :
    IsLinked (λ n. ok n (n + 1)) 4 linking 3 (create_or_get_value_id (λ n. ok n (n + 1)) 4 linking)
create_or_get_value_id_lem_example = create_or_get_value_id_lem (λ n. ok n (n + 1)) 4 linking 3
