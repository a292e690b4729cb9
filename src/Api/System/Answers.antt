-- ===== src/Api/System/Answers.antt =====
-- What the typed getters of products/common/rim_api.cpp answer in a run.
use printer_fw.Base.{ℕ, true, Option, none, some, Bool-cases, inl, inr, ◌==◌}
use printer_fw.Value.{RimDataItem, k_bool, k_int32, k_double, b, i32, d}
use printer_fw.Storage.{Registry, find_data}
use printer_fw.Store.Settle.{CurrentIsWellTyped}
use printer_fw.Product.{ProductDefinition}
use printer_fw.Product.Context.{find_data_domain_id, find_capability_domain_id}
use printer_fw.Product.Domains.{invalid_domain_id}
use printer_fw.Accessor
use printer_fw.Accessor.{try_get_capability, find_in_domain}
use printer_fw.Typed.{ProductIsTyped}
use printer_fw.Typed.Stored.{find_data-typed}
use printer_fw.Api.{
  RiManagerContext, try_read_data_item, get_bool, get_int32, get_double, get_binary,
  get_capability_bool, get_capability_int32, get_capability_double, int_of, value_of, data_value,
  capability_value,
}
use printer_fw.Api.Getters.{IsTypedIfThere, AnswersFor, AnswersBytesFor, as_is, getters-AnswersFor}
use printer_fw.Api.System.{Reach}
use printer_fw.Api.System.Types.{Reach-IsGood}

value_of-typed : (o : Option RimDataItem) → CurrentIsWellTyped o → IsTypedIfThere (value_of o)
value_of-typed none h = tt
value_of-typed (some item) h = h

capability_of-typed :
    (o : Option RimDataItem) → CurrentIsWellTyped o → IsTypedIfThere (Accessor.value_of o)
capability_of-typed none h = tt
capability_of-typed (some item) h = h

in_domain-typed :
    (r : Registry) (domain id : ℕ)
    → CurrentIsWellTyped (find_data r domain id)
    → CurrentIsWellTyped (find_in_domain r domain id)
unfolding find_in_domain
in_domain-typed r domain id h = elim (Bool-cases (domain == invalid_domain_id)) [
  | inl e ↦ rw e tt
  | inr e ↦ rw e h
]

-- If the callbacks of a product make well-typed values of the types that its tables name, then in
-- every state that calls of the client's and passes of the workers reach from the start of the
-- program, in any order, and as long as the ids of subscriptions are not used up, each of the seven
-- typed getters reports no data if nothing is stored for its id; if the type of what is stored is
-- its own, it writes the content, a Boolean as 0 or 1 and bytes with their number in 32 bits,
-- except that a null pointer to bytes is reported as no data; and it reports an internal error if
-- the type is another. No answer is undefined.
pub Reach-AnswersFor :
    (p : ProductDefinition) (g : RiManagerContext) (id : ℕ)
    → ProductIsTyped p
    → Reach p (some g)
    → AnswersFor k_bool b int_of (data_value id g) (get_bool (some g) id true)
      × AnswersFor k_int32 i32 as_is (data_value id g) (get_int32 (some g) id true)
      × AnswersFor k_double d as_is (data_value id g) (get_double (some g) id true)
      × AnswersBytesFor (data_value id g) (get_binary (some g) id true)
      × AnswersFor k_bool b int_of (capability_value id g) (get_capability_bool (some g) id true)
      × AnswersFor k_int32 i32 as_is (capability_value id g) (get_capability_int32 (some g) id true)
      × AnswersFor k_double d as_is (capability_value id g) (get_capability_double (some g) id true)
unfolding try_read_data_item try_get_capability
Reach-AnswersFor p g id typed reach =
    let (same, good) = Reach-IsGood p g typed reach in
    getters-AnswersFor g id
      (value_of-typed (find_data g.domain_store (find_data_domain_id g.product_context id) id)
        (find_data-typed g.domain_store (find_data_domain_id g.product_context id) id good.1))
      (capability_of-typed _ (
        in_domain-typed g.domain_store (find_capability_domain_id g.product_context id) id (
          find_data-typed g.domain_store (find_capability_domain_id g.product_context id) id
            good.1)))
