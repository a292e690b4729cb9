-- ===== src/Value.antt =====
-- The values that flow through the program: core/common/include/ValueType.hpp, RIMValue.hpp,
-- RIMValueFactory.hpp, RIMDataItem.hpp and BinaryHash.hpp, core/storage/include/
-- RIMValueAccessor.hpp, BinaryEntry.hpp and BinaryInfo.hpp, and the functions of products/common.
-- An integer and a double are their bit patterns. `none` as the result of a callback or of a copy
-- stands for undefined behaviour: a read of a union member that is not the active one, or of more
-- bytes than a pointer leads to.
pub mod Double
pub mod Reads
pub mod Diff
use printer_fw.Base.{
  ℕ, ◌*◌, ◌%◌, ◌≤◌, ◌≡◌, ite, Bool, true, false, Option, none, some, List, [], ◌∷◌, arith, length,
  take, leb, if◌then◌else◌, bit_xor,
}

pub data ValueType : Type 0 where
  k_bool k_int32 k_uint32 k_int64 k_uint64 k_double k_string k_binary : ValueType
  k_struct k_array k_object : ValueType

unfoldable pub ValueType-discrete : Discrete ValueType
ValueType-discrete = hlevel

-- A pointer leads to the caller's memory, or to the buffer that the storage with the given
-- address keeps for the item with the given id.
pub data BytesPointer : Type 0 where
  null : BytesPointer
  client : ℕ → BytesPointer
  buffer : ℕ → ℕ → BytesPointer

-- The bytes that can be read from a pointer on.
abbrev pub Memory : Type 0
Memory = BytesPointer → List ℕ

-- The union, by its active member.
pub data RimValueStorage : Type 0 where
  b : Bool → RimValueStorage
  i32 u32 i64 u64 d str : ℕ → RimValueStorage
  bytes : BytesPointer → RimValueStorage

pub record RimValue : Type 0 where
  pub type : ValueType
  pub value : RimValueStorage
  pub size : ℕ

-- RimValue{}
abbrev pub default_value : RimValue
default_value = record { type = k_bool; value = bytes null; size = 0 }

pub record RimDataItem : Type 0 where
  pub id : ℕ
  pub value : RimValue

abbrev pub compression_key : RimDataItem → ℕ
compression_key item = item.id

-- RIMValueFactory
abbrev pub create_bool : Bool → RimValue
create_bool x = record { type = k_bool; value = b x; size = 0 }

abbrev pub create_int32 : ℕ → RimValue
create_int32 x = record { type = k_int32; value = i32 x; size = 0 }

abbrev pub create_uint32 : ℕ → RimValue
create_uint32 x = record { type = k_uint32; value = u32 x; size = 0 }

abbrev pub create_int64 : ℕ → RimValue
create_int64 x = record { type = k_int64; value = i64 x; size = 0 }

abbrev pub create_uint64 : ℕ → RimValue
create_uint64 x = record { type = k_uint64; value = u64 x; size = 0 }

abbrev pub create_double : ℕ → RimValue
create_double x = record { type = k_double; value = d x; size = 0 }

abbrev pub create_string : ℕ → RimValue
create_string x = record { type = k_string; value = str x; size = 0 }

abbrev pub create_binary : BytesPointer → ℕ → RimValue
create_binary p n = record { type = k_binary; value = bytes p; size = n }

-- The loop of `CalculateBinaryHash`, FNV-1a in 64 bits.
unfoldable pub hash_from : ℕ → List ℕ → ℕ
hash_from hash [] = hash
hash_from hash (x ∷ xs) = hash_from ((bit_xor hash x * 1099511628211) % 18446744073709551616) xs

unfoldable pub calculate_binary_hash : List ℕ → ℕ
unfolding hash_from
calculate_binary_hash = hash_from 14695981039346656037

-- The first `size` bytes from a pointer on, if there are as many.
unfoldable pub read_bytes : Memory → BytesPointer → ℕ → Option (List ℕ)
read_bytes memory p size =
    if leb size (length (memory p)) then some (take size (memory p)) else none

-- `IdentityStore` and `StoreBinary` of CommonStoreFunctions.hpp.
unfoldable pub identity_store : RimValue → RimValue → Option RimValue
identity_store current set_value = some set_value
