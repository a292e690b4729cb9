-- ===== src/Tests/Storages.antt =====
-- A storage and a registry with one item or two.
use printer_fw.Base.{ℕ, ◌≡◌, ◌≢◌, refl, some, List, [], ◌∷◌}
use printer_fw.Base.Maps
use printer_fw.Value.{
  Memory, client, RimDataItem, create_uint32, create_binary, read_bytes, k_binary,
}
use printer_fw.Storage.{PartitionStorage, empty_storage, store, Registry, store_in, memory_of}
use printer_fw.Storage.Consistency.{
  with_plain, with_binary, store-with_binary, IsConsistent, empty_storage-IsConsistent,
  store-IsConsistent,
}
use printer_fw.Storage.Registry.{
  IsSound, empty-IsSound, store_in-IsSound, store_in-binary, StoresBytes,
}

abbrev caller : ℕ → List ℕ
caller a = 7 ∷ 8 ∷ 9 ∷ []

abbrev memory : Memory
memory = memory_of caller []

abbrev text : RimDataItem
text = record { id = 4; value = create_binary (client 0) 2 }

abbrev level : RimDataItem
level = record { id = 5; value = create_uint32 3 }

text_readable : read_bytes memory (client 0) 2 ≡ some (7 ∷ 8 ∷ [])
unfolding read_bytes memory_of
text_readable = refl

level_plain : level.value.type ≢ k_binary
level_plain h = cc

abbrev stored_text : PartitionStorage
stored_text = with_binary (empty_storage 1) text (7 ∷ 8 ∷ [])

text_stored : store memory (empty_storage 1) text ≡ some stored_text
text_stored =
    store-with_binary memory (empty_storage 1) text (client 0) (7 ∷ 8 ∷ []) refl refl refl
      text_readable

store-IsConsistent_example : IsConsistent stored_text
store-IsConsistent_example =
    store-IsConsistent memory (empty_storage 1) stored_text text text_stored
      (empty_storage-IsConsistent 1)

store_in-binary_example : StoresBytes caller 1 text [] (7 ∷ 8 ∷ [])
store_in-binary_example =
    store_in-binary caller 1 text [] (client 0) (7 ∷ 8 ∷ []) empty-IsSound refl refl refl
      text_readable

abbrev one_domain : Registry
one_domain = (1, with_plain (empty_storage 1) level) ∷ []

level_stored_in : store_in memory 1 level [] ≡ some one_domain
unfolding store_in store Maps.put Maps.find Maps.erase
level_stored_in = refl

store_in-IsSound_example :
    IsSound one_domain × ((j : ℕ) → 1 ≢ j → Maps.find j one_domain ≡ Maps.find j [])
store_in-IsSound_example =
    store_in-IsSound memory 1 level [] one_domain level_stored_in empty-IsSound
