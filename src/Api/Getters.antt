-- ===== src/Api/Getters.antt =====
-- The statuses of the typed getters of products/common/rim_api.cpp.
use printer_fw.Base.{
  ℕ, ◌%◌, ◌≡◌, ◌≢◌, ◌⊎◌, inl, inr, if_pos, if_neg, refl, subst, true, Option, none, some,
  if◌then◌else◌,
}
use printer_fw.Value.{
  ValueType, k_bool, k_int32, k_double, k_binary, ValueType-discrete, BytesPointer, null, client,
  buffer, RimValue, RimValueStorage, b, i32, d, bytes,
}
use printer_fw.Value.Reads
use printer_fw.Value.Reads.{Matches, IsWellTyped}
use printer_fw.Api.{
  RiManagerContext, Response, failed, written, internal_error, no_data, get_found, get_with,
  get_bool, get_int32, get_double, get_binary, get_capability_bool, get_capability_int32,
  get_capability_double, data_value, capability_value, written_binary, int_of, is_null,
}

-- The content is written, as it is shown to the client, if the item has the getter's type, and
-- otherwise the status is an internal error.
abbrev pub Answers :
    {A B : Type 0} → ValueType → (A → RimValueStorage) → (A → B) → RimValue → Response B → Type 0
Answers {A} expected member shown v response =
    ((v.type ≡ expected) × (x : A) × (v.value ≡ member x) × (response ≡ written (shown x)))
    ⊎ ((v.type ≢ expected) × (response ≡ failed internal_error))

-- Bytes are written with their number in 32 bits, and a null pointer is reported as no data.
abbrev pub AnswersBytes : RimValue → Response (BytesPointer × ℕ) → Type 0
AnswersBytes v response =
    ((v.type ≡ k_binary)
      × (p : BytesPointer) × (v.value ≡ bytes p)
      × (response ≡ (if is_null p then failed no_data else written (p, v.size % 4294967296))))
    ⊎ ((v.type ≢ k_binary) × (response ≡ failed internal_error))

abbrev pub IsTypedIfThere : Option RimValue → Type 0
IsTypedIfThere none = Unit
IsTypedIfThere (some v) = IsWellTyped v

-- What is looked up, if anything.
abbrev pub AnswersFor :
    {A B : Type 0}
    → ValueType
    → (A → RimValueStorage)
    → (A → B)
    → Option RimValue
    → Response B
    → Type 0
AnswersFor expected member shown none response = response ≡ failed no_data
AnswersFor expected member shown (some v) response = Answers expected member shown v response

abbrev pub AnswersBytesFor : Option RimValue → Response (BytesPointer × ℕ) → Type 0
AnswersBytesFor none response = response ≡ failed no_data
AnswersBytesFor (some v) response = AnswersBytes v response

abbrev pub as_is : ℕ → ℕ
as_is x = x

-- The answer of a read, by the type of the value.
read-Answers :
    {A B : Type 0} (expected : ValueType) (member : A → RimValueStorage)
    (get : RimValueStorage → Option A) (shown : A → B) (v : RimValue)
    → ((v.type ≡ expected) → (x : A) × (v.value ≡ member x))
    → ((x : A) → get (member x) ≡ some x)
    → Answers expected member shown v
        (get_found (λ w. Reads.get_value expected w get) (λ x. written (shown x)) (some v))
unfolding get_found Reads.get_value
read-Answers expected member get shown v typed reads = elim (ValueType-discrete v.type expected) [
  | yes e ↦ let (x, at_x) = typed e in inl (e, x, at_x, rw (if_pos _ e, at_x, reads x) refl)
  | no n ↦ inr (n, rw (if_neg _ n) refl)
]

matches : (v : RimValue) (t : ValueType) → IsWellTyped v → v.type ≡ t → Matches t v.value
matches v t w e = subst (λ u. Matches u v.value) e w

for_bool :
    (o : Option RimValue)
    → IsTypedIfThere o
    → AnswersFor k_bool b int_of o (get_found Reads.get_bool (λ x. written (int_of x)) o)
unfolding get_found Reads.get_bool
for_bool none w = refl
for_bool (some v) w = read-Answers k_bool b Reads.member_b int_of v (matches v k_bool w) (λ x. refl)

for_int32 :
    (o : Option RimValue)
    → IsTypedIfThere o
    → AnswersFor k_int32 i32 as_is o (get_found Reads.get_int32 (λ x. written x) o)
unfolding get_found Reads.get_int32
for_int32 none w = refl
for_int32 (some v) w =
    read-Answers k_int32 i32 Reads.member_i32 as_is v (matches v k_int32 w) (λ x. refl)

for_double :
    (o : Option RimValue)
    → IsTypedIfThere o
    → AnswersFor k_double d as_is o (get_found Reads.get_double (λ x. written x) o)
unfolding get_found Reads.get_double
for_double none w = refl
for_double (some v) w =
    read-Answers k_double d Reads.member_d as_is v (matches v k_double w) (λ x. refl)

bytes_answer :
    (v : RimValue) (p : BytesPointer)
    → v.type ≡ k_binary
    → v.value ≡ bytes p
    → get_found Reads.get_binary written_binary (some v)
      ≡ (if is_null p then failed no_data else written (p, v.size % 4294967296))
unfolding get_found Reads.get_binary
bytes_answer v null e at_p = rw (if_pos _ e, at_p) refl
bytes_answer v (client a) e at_p = rw (if_pos _ e, at_p) refl
bytes_answer v (buffer a id) e at_p = rw (if_pos _ e, at_p) refl

for_binary :
    (o : Option RimValue)
    → IsTypedIfThere o
    → AnswersBytesFor o (get_found Reads.get_binary written_binary o)
unfolding get_found Reads.get_binary
for_binary none w = refl
for_binary (some v) w = elim (ValueType-discrete v.type k_binary) [
  | yes e ↦ let (p, at_p) = matches v k_binary w e in inl (e, p, at_p, bytes_answer v p e at_p)
  | no n ↦ inr (n, rw (if_neg _ n) refl)
]

-- If what is stored for an id as a datum and as a capability is well typed, where there is
-- anything, then each of the seven typed getters reports no data if there is nothing; if the type
-- of what is stored is its own, it writes the content, a Boolean as 0 or 1 and bytes with their
-- number in 32 bits, except that a null pointer to bytes is reported as no data; and it reports an
-- internal error if the type is another. No answer is undefined.
pub getters-AnswersFor :
    (g : RiManagerContext) (id : ℕ)
    → IsTypedIfThere (data_value id g)
    → IsTypedIfThere (capability_value id g)
    → AnswersFor k_bool b int_of (data_value id g) (get_bool (some g) id true)
      × AnswersFor k_int32 i32 as_is (data_value id g) (get_int32 (some g) id true)
      × AnswersFor k_double d as_is (data_value id g) (get_double (some g) id true)
      × AnswersBytesFor (data_value id g) (get_binary (some g) id true)
      × AnswersFor k_bool b int_of (capability_value id g) (get_capability_bool (some g) id true)
      × AnswersFor k_int32 i32 as_is (capability_value id g) (get_capability_int32 (some g) id true)
      × AnswersFor k_double d as_is (capability_value id g) (get_capability_double (some g) id true)
unfolding get_bool get_int32 get_double get_binary get_capability_bool get_capability_int32
    get_capability_double get_with
getters-AnswersFor g id typed capability_typed = (
  for_bool (data_value id g) typed,
  for_int32 (data_value id g) typed,
  for_double (data_value id g) typed,
  for_binary (data_value id g) typed,
  for_bool (capability_value id g) capability_typed,
  for_int32 (capability_value id g) capability_typed,
  for_double (capability_value id g) capability_typed,
)
