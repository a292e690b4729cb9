-- ===== src/Tests/Products.antt =====
-- A product with two data items, one capability and one facade.
use printer_fw.Base.{◌≡◌, ◌↔◌, refl, true, some, [], ◌∷◌}
use printer_fw.Base.Maps
use printer_fw.Notification.{keep_latest}
use printer_fw.Queue.{buffered, coalescing}
use printer_fw.Value.{k_uint32, create_uint32, identity_store}
use printer_fw.Value.Diff.{identity_diff}
use printer_fw.Product.{
  DomainDefinition, RouteDefinition, DataItemDefinition, CapabilityItemDefinition,
  FacadeItemDefinition, ProductDefinition,
}
use printer_fw.Product.Validate.{
  validate_product_definition, IsValid, validate_product_definition_iff,
}
use printer_fw.Product.Domains.{find_domain_id, data_domain_map}
use printer_fw.Product.Context.{
  create, index_by, find_data_item, capabilities_on, facades_on, find_data_domain_id,
}
use printer_fw.Product.Context.Index.{dependents, dependents-create}

abbrev pub paper : DomainDefinition
paper = record { address = 100; pointer = 200; name = "paper" }

abbrev pub direct : RouteDefinition
direct = record {
  id = 1;
  name = "direct";
  store_policy = buffered;
  capability_policy = coalescing;
  compression_policy = keep_latest;
  minimum_notify_interval_ms = 50;
}

abbrev pub tray : DataItemDefinition
tray = record {
  id = 10;
  name = "tray";
  domain = some paper;
  route_id = 1;
  raw_value_type = k_uint32;
  set_value_type = k_uint32;
  store_value_type = k_uint32;
  get_value_type = k_uint32;
  initial_value = create_uint32 0;
  normalize = λ v. some v;
  store = identity_store;
  diff = some identity_diff;
}

abbrev pub sheets : DataItemDefinition
sheets = record tray { id = 11; name = "sheets" }

abbrev pub ready : CapabilityItemDefinition
ready = record {
  id = 20;
  name = "ready";
  value_type = k_uint32;
  initial_value = create_uint32 0;
  build = λ memory snapshot. some (create_uint32 1);
  diff = identity_diff;
  required_data_ids = 10 ∷ 11 ∷ [];
  route_id = 1;
}

abbrev pub status : FacadeItemDefinition
status = record {
  id = 30;
  name = "status";
  value_type = k_uint32;
  initial_value = create_uint32 0;
  build = λ memory snapshot. some (create_uint32 1);
  diff = identity_diff;
  required_capability_ids = 20 ∷ [];
  route_id = 1;
}

abbrev pub product : ProductDefinition
product = record {
  domains = paper ∷ [];
  routes = direct ∷ [];
  data_items = tray ∷ sheets ∷ [];
  capabilities = ready ∷ [];
  facades = status ∷ [];
}

validate_product_definition_iff_example :
    (validate_product_definition product ≡ true) ↔ IsValid product
validate_product_definition_iff_example = validate_product_definition_iff product

pub product-accepted : validate_product_definition product ≡ true
unfolding validate_product_definition
product-accepted = refl

dependents-create_example :
    (capabilities_on (create product) 11
      ≡ dependents (λ c. c.required_data_ids) 11 product.capabilities)
    × (facades_on (create product) 11
        ≡ dependents (λ f. f.required_capability_ids) 11 product.facades)
dependents-create_example = dependents-create product 11

sheets-found : find_data_item (create product) 11 ≡ some sheets
unfolding create index_by Maps.find Maps.emplace
sheets-found = refl

sheets-domain : find_data_domain_id (create product) 11 ≡ 1
unfolding create find_domain_id data_domain_map Maps.find Maps.emplace Maps.put
sheets-domain = refl
