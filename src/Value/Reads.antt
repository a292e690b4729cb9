-- ===== src/Value/Reads.antt =====
-- core/storage/include/RIMValueAccessor.hpp.
use printer_fw.Base.{◌≡◌, ◌≢◌, ℕ, ite, Bool, Option, none, some, arith}
use printer_fw.Value.{
  ValueType, k_bool, k_int32, k_uint32, k_int64, k_uint64, k_double, k_string, k_binary, k_struct,
  k_array, k_object, ValueType-discrete, BytesPointer, RimValueStorage, b, i32, u32, i64, u64, d,
  str, bytes, RimValue,
}

-- `mismatch` is `false`; `inactive` is undefined behaviour.
pub data Read (A : Type 0) : Type 0 where
  mismatch : Read A
  inactive : Read A
  found : A → Read A

abbrev pub member_b : RimValueStorage → Option Bool
member_b (b x) = some x
member_b _ = none

abbrev pub member_i32 : RimValueStorage → Option ℕ
member_i32 (i32 x) = some x
member_i32 _ = none

abbrev pub member_u32 : RimValueStorage → Option ℕ
member_u32 (u32 x) = some x
member_u32 _ = none

abbrev pub member_i64 : RimValueStorage → Option ℕ
member_i64 (i64 x) = some x
member_i64 _ = none

abbrev pub member_u64 : RimValueStorage → Option ℕ
member_u64 (u64 x) = some x
member_u64 _ = none

abbrev pub member_d : RimValueStorage → Option ℕ
member_d (d x) = some x
member_d _ = none

abbrev pub member_str : RimValueStorage → Option ℕ
member_str (str x) = some x
member_str _ = none

abbrev pub member_bytes : RimValueStorage → Option BytesPointer
member_bytes (bytes p) = some p
member_bytes _ = none

-- `detail::GetValue`
unfoldable pub get_value :
    {A : Type 0} → ValueType → RimValue → (RimValueStorage → Option A) → Read A
unfolding ValueType-discrete
get_value expected v member =
    ite (ValueType-discrete v.type expected)
      (elim (member v.value) [ none ↦ inactive | some x ↦ found x ]) mismatch

unfoldable pub get_bool : RimValue → Read Bool
unfolding get_value
get_bool v = get_value k_bool v member_b

unfoldable pub get_int32 : RimValue → Read ℕ
unfolding get_value
get_int32 v = get_value k_int32 v member_i32

unfoldable pub get_uint32 : RimValue → Read ℕ
unfolding get_value
get_uint32 v = get_value k_uint32 v member_u32

unfoldable pub get_int64 : RimValue → Read ℕ
unfolding get_value
get_int64 v = get_value k_int64 v member_i64

unfoldable pub get_uint64 : RimValue → Read ℕ
unfolding get_value
get_uint64 v = get_value k_uint64 v member_u64

unfoldable pub get_double : RimValue → Read ℕ
unfolding get_value
get_double v = get_value k_double v member_d

unfoldable pub get_string : RimValue → Read ℕ
unfolding get_value
get_string v = get_value k_string v member_str

-- The pointer and the size.
unfoldable pub get_binary : RimValue → Read (BytesPointer × ℕ)
unfolding ValueType-discrete
get_binary v =
    ite (ValueType-discrete v.type k_binary)
      (elim (member_bytes v.value) [ none ↦ inactive | some p ↦ found (p, v.size) ]) mismatch

-- The active member is the one that the type tag names.
abbrev pub Matches : ValueType → RimValueStorage → Type 0
Matches k_bool s = (x : Bool) × (s ≡ b x)
Matches k_int32 s = (x : ℕ) × (s ≡ i32 x)
Matches k_uint32 s = (x : ℕ) × (s ≡ u32 x)
Matches k_int64 s = (x : ℕ) × (s ≡ i64 x)
Matches k_uint64 s = (x : ℕ) × (s ≡ u64 x)
Matches k_double s = (x : ℕ) × (s ≡ d x)
Matches k_string s = (x : ℕ) × (s ≡ str x)
Matches k_binary s = (p : BytesPointer) × (s ≡ bytes p)
Matches k_struct s = Unit
Matches k_array s = Unit
Matches k_object s = Unit

abbrev pub IsWellTyped : RimValue → Type 0
IsWellTyped v = Matches v.type v.value

-- A read finds the member that the tag names.
pub get_value-found :
    {A : Type 0} (expected : ValueType) (v : RimValue) (member : RimValueStorage → Option A) (x : A)
    → v.type ≡ expected
    → member v.value ≡ some x
    → get_value expected v member ≡ found x
unfolding get_value
get_value-found expected v member x e m = ground arith

-- None of the eight typed reads of a well-typed value reads a union member that is not the active
-- one.
reads_defined :
    (v : RimValue)
    → IsWellTyped v
    → (get_bool v ≢ inactive)
      × (get_int32 v ≢ inactive)
      × (get_uint32 v ≢ inactive)
      × (get_int64 v ≢ inactive)
      × (get_uint64 v ≢ inactive)
      × (get_double v ≢ inactive)
      × (get_string v ≢ inactive)
      × (get_binary v ≢ inactive)
unfolding get_bool get_int32 get_uint32 get_int64 get_uint64 get_double get_string get_binary
reads_defined v w = ground arith
