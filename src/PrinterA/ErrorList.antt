-- ===== src/PrinterA/ErrorList.antt =====
-- products/printer_a/printer_a.cpp: the list of errors as the bytes of a struct of 164 bytes.
use printer_fw.Base.{
  ℕ, zero, suc, [], ◌∷◌, ◌≤◌, ◌≡◌, refl, ap, ◌∙◌, sym, subst, Bool, true, false, Option, none, some,
  List, ◌==◌, length, take, arith, if◌then◌else◌,
}
use printer_fw.Value.{
  BytesPointer, null, client, buffer, k_binary, Memory, RimDataItem, read_bytes, identity_store,
  create_binary, ValueType-discrete,
}
use printer_fw.Value.Reads
use printer_fw.Storage.{memory_of}
use printer_fw.Storage.Registry.{IsSound}
use printer_fw.Product.Context.{find_data_domain_id}
use printer_fw.RouteExecutor.{capability_insert}
use printer_fw.Store.Binary.{process-first_binary}
use printer_fw.Api.{
  RiManagerContext, Global, RiStatus, success, invalid_parameter, internal_error, Response, failed,
  written, undefined, set_binary, get_binary, get_with, get_found, try_read_data_item, value_of,
  written_binary,
}
use printer_fw.Api.Passes.{Accepts, start_state, queued, processed, set_value-processed}
use printer_fw.Api.Workers.{run_store}
use printer_fw.PrinterA.{error_list}

-- sizeof(RI_FAULT_INFO_LIST): twenty entries of two words, and the count.
abbrev pub error_list_size : ℕ
error_list_size = 164

abbrev pub memory_in : (ℕ → List ℕ) → Global → Memory
memory_in caller none = memory_of caller []
memory_in caller (some g) = memory_of caller g.domain_store

-- The end of GetStruct, which copies the bytes of the struct.
unfoldable pub copy_struct : Memory → ℕ → Response (BytesPointer × ℕ) → Response (List ℕ)
unfolding read_bytes
copy_struct memory size (failed status) = failed status
copy_struct memory size undefined = undefined
copy_struct memory size (written (p, n)) =
    if n == size
    then (elim (read_bytes memory p size) [ none ↦ undefined | some xs ↦ written xs ])
    else failed internal_error

-- PrinterA_SetErrorList
unfoldable pub set_error_list : Global → BytesPointer → Option (Global × RiStatus)
unfolding set_binary
set_error_list g null = some (g, invalid_parameter)
set_error_list g p = set_binary g error_list p error_list_size

-- PrinterA_GetErrorList
unfoldable pub get_error_list : (ℕ → List ℕ) → Global → Bool → Response (List ℕ)
unfolding copy_struct get_binary
get_error_list caller g false = failed invalid_parameter
get_error_list caller g true =
    copy_struct (memory_in caller g) error_list_size (get_binary g error_list true)

take-all : (xs : List ℕ) → take (length xs) xs ≡ xs
take-all [] = refl
take-all (x ∷ xs) = ap (◌∷◌ x) (take-all xs)

length-take : (n : ℕ) (xs : List ℕ) → n ≤ length xs → length (take n xs) ≡ n
length-take zero xs h = refl
length-take (suc n) [] h = omega arith
length-take (suc n) (x ∷ xs) h = ap suc (length-take n xs (omega arith))

read_bytes-take :
    (memory : Memory) (p : BytesPointer) (n : ℕ)
    → n ≤ length (memory p)
    → read_bytes memory p n ≡ some (take n (memory p))
unfolding read_bytes
read_bytes-take memory p n h = ground arith

read_bytes-whole :
    (memory : Memory) (p : BytesPointer) (x : List ℕ)
    → memory p ≡ x
    → length x ≡ 164
    → read_bytes memory p 164 ≡ some x
read_bytes-whole memory p x e l =
    let long : 164 ≤ length (memory p) = subst (λ y. 164 ≤ length y) (sym e) (omega arith) in
    read_bytes-take memory p 164 long
    ∙ ap (λ y. some (take 164 y)) e
    ∙ ap (λ n. some (take n x)) (sym l)
    ∙ ap some (take-all x)

-- What GetStruct copies, if the stored item has a pointer of the storage's own to the bytes.
copy_struct-stored :
    (memory : Memory) (domain : ℕ) (x : List ℕ) (o : Option RimDataItem)
    → length x ≡ 164
    → o
      ≡ some
          (record { id = error_list; value = create_binary (buffer domain error_list) (length x) })
    → memory (buffer domain error_list) ≡ x
    → copy_struct memory 164 (get_found Reads.get_binary written_binary (value_of o)) ≡ written x
unfolding copy_struct get_found Reads.get_binary ValueType-discrete
copy_struct-stored memory domain x o l e copied =
    rw (e, l, read_bytes-whole memory (buffer domain error_list) x copied l) refl

-- In a context with sound storages, an empty queue for the list of errors and no list stored:
-- PrinterA_SetErrorList succeeds on a pointer to 164 bytes of the caller's, the next pass of the
-- route's store worker is defined, and PrinterA_GetErrorList then copies the bytes that the
-- caller's memory had at the time of the pass.
pub set_error_list-get_error_list :
    (caller : ℕ → List ℕ) (g : RiManagerContext) (a : ℕ) (accepts : Accepts k_binary g error_list)
    → accepts.definition.store ≡ identity_store
    → accepts.definition.store_value_type ≡ k_binary
    → IsSound g.domain_store
    → try_read_data_item g error_list ≡ none
    → 164 ≤ length (caller a)
    → (g' : RiManagerContext) × (set_error_list (some g) (client a) ≡ some (some g', success))
      × (g'' : RiManagerContext) × (run_store caller accepts.queues.name g' ≡ some g'')
      × (get_error_list caller (some g'') true ≡ written (take 164 (caller a)))
unfolding set_error_list set_binary get_error_list get_binary get_with try_read_data_item memory_of
set_error_list-get_error_list caller g a accepts keeps kept_as sound absent long =
    let item : RimDataItem = record { id = error_list; value = create_binary (client a) 164 } in
    let x = take 164 (caller a) in
    let (t, done, stored, copied) =
      process-first_binary caller (capability_insert accepts.queues) g.product_context
        (start_state g accepts.queues) item accepts.definition (client a) x accepts.known
        accepts.valid keeps kept_as absent sound refl refl refl
        (read_bytes-take (memory_of caller g.domain_store) (client a) 164 long) in
    let (set, ran) =
      set_value-processed caller g error_list (create_binary (client a) 164) accepts t done in
    (
      queued g accepts.queues item,
      set,
      processed g accepts.queues item t,
      ran,
      copy_struct-stored (memory_of caller t.domain_store)
          (find_data_domain_id g.product_context error_list) x _ (length-take 164 (caller a) long)
          stored copied,
    )
