-- ===== src/Adapter/Routing.antt =====
-- The tables that RouteProvider::Initialize (core/common/src/RouteProvider.cpp) makes of a valid
-- product.
use Prim.Native.String.{String}
use text.Mathlib.Text.{◌==◌ as str_eq}
use text.Mathlib.TextEquality.{eq_iff}
use printer_fw.Base.{
  ℕ, ◌≡◌, ◌↔◌, some_inv, ◌∙◌, refl, sym, subst, Bool, true, Option, none, some, List, [], ◌∷◌, ◌++◌,
  inl, inr, All, Any, ◌==◌, arith, Bool-cases,
}
use printer_fw.Base.Maps
use printer_fw.Product.{ProductDefinition, RouteDefinition, DataItemDefinition}
use printer_fw.Product.Lookup.{first}
use printer_fw.Product.Lookup
use printer_fw.Product.Validate.{IsValid, is_found, first_iff, find_id_iff}
use printer_fw.Product.Context.{ProductContext, create, find_route}
use printer_fw.Product.Context.Index.{find-create}
use printer_fw.Adapter.{
  RouteQueues, RouteProvider, new_queues, find_named, emplace_queues, add_routes, add_items,
  initialize, find_queues,
}

-- There are queues of this name.
abbrev pub HasName : List RouteQueues → String → Type 0
HasName queues name = Any (λ q. q.name ≡ name) queues

found_some : {A : Type 0} (o : Option A) → is_found o ≡ true → (a : A) × (o ≡ some a)
found_some none h = cc
found_some (some a) h = (a, refl)

named_iff :
    (queues : List RouteQueues) (name : String)
    → (is_found (find_named queues name) ≡ true) ↔ HasName queues name
named_iff queues name =
    first_iff (λ q. str_eq q.name name) (λ q. q.name ≡ name) (λ q. eq_iff q.name name) queues

Any-left : {A : Type 0} (P : A → Type 0) (xs ys : List A) → Any P xs → Any P (xs ++ ys)
Any-left P [] ys h = absurd h
Any-left P (x ∷ xs) ys (inl h) = inl h
Any-left P (x ∷ xs) ys (inr h) = inr (Any-left P xs ys h)

Any-snoc : {A : Type 0} (P : A → Type 0) (xs : List A) (y : A) → P y → Any P (xs ++ y ∷ [])
Any-snoc P [] y h = inl h
Any-snoc P (x ∷ xs) y h = inr (Any-snoc P xs y h)

emplace_queues-HasName :
    (queues : List RouteQueues) (route : RouteDefinition)
    → HasName (emplace_queues queues route) route.name
unfolding emplace_queues
emplace_queues-HasName queues route = elim (Bool-cases (is_found (find_named queues route.name))) [
  | inl e ↦ rw e ((named_iff queues route.name).0 e)
  | inr e ↦ rw e (Any-snoc _ queues (new_queues route) refl)
]

emplace_queues-keeps :
    (queues : List RouteQueues) (route : RouteDefinition) (name : String)
    → HasName queues name
    → HasName (emplace_queues queues route) name
unfolding emplace_queues
emplace_queues-keeps queues route name h =
    elim (Bool-cases (is_found (find_named queues route.name))) [
      | inl e ↦ rw e h
      | inr e ↦ rw e (Any-left _ queues (new_queues route ∷ []) h)
    ]

add_routes-keeps :
    (queues : List RouteQueues) (routes : List RouteDefinition) (name : String)
    → HasName queues name
    → HasName (add_routes queues routes) name
unfolding add_routes
add_routes-keeps queues [] name h = h
add_routes-keeps queues (route ∷ routes) name h =
    add_routes-keeps (emplace_queues queues route) routes name
      (emplace_queues-keeps queues route name h)

add_routes-HasName :
    (queues : List RouteQueues) (routes : List RouteDefinition)
    → All (λ route. HasName (add_routes queues routes) route.name) routes
unfolding add_routes
add_routes-HasName queues [] = tt
add_routes-HasName queues (route ∷ routes) = (
  add_routes-keeps (emplace_queues queues route) routes route.name
      (emplace_queues-HasName queues route),
  add_routes-HasName (emplace_queues queues route) routes,
)

pub first-All :
    {A : Type 0} (P : A → Type 0) (p : A → Bool) (xs : List A) (x : A)
    → All P xs
    → first p xs ≡ some x
    → P x
unfolding first
first-All P p [] x h e = cc
first-All P p (y ∷ ys) x h e = elim (Bool-cases (p y)) [
  | inl hit ↦ subst P (some_inv (sym (rw hit at e))) h.0
  | inr miss ↦ first-All P p ys x h.1 (rw miss at e)
]

pub first-test :
    {A : Type 0} (p : A → Bool) (xs : List A) (x : A) → first p xs ≡ some x → p x ≡ true
unfolding first
first-test p [] x e = cc
first-test p (y ∷ ys) x e = elim (Bool-cases (p y)) [
  | inl hit ↦ subst (λ z. p z ≡ true) (some_inv (sym (rw hit at e))) hit
  | inr miss ↦ first-test p ys x (rw miss at e)
]

-- The routing table leads the ids in it to names that have queues.
abbrev TableIsSound : List RouteQueues → List (ℕ × String) → Type 0
TableIsSound queues table = All (HasName queues) (Maps.values table)

-- There is an entry for the id.
abbrev HasEntry : List (ℕ × String) → ℕ → Type 0
HasEntry table id = is_found (Maps.find id table) ≡ true

emplace_sound :
    (queues : List RouteQueues) (id : ℕ) (name : String) (table : List (ℕ × String))
    → HasName queues name
    → TableIsSound queues table
    → TableIsSound queues (Maps.emplace id name table)
unfolding Maps.emplace Maps.values
emplace_sound queues id name [] h sound = (h, tt)
emplace_sound queues id name ((j, n) ∷ table) h sound = elim (Bool-cases (j == id)) [
  | inl e ↦ rw e sound
  | inr e ↦ rw e (sound.0, emplace_sound queues id name table h sound.1)
]

emplace-HasEntry :
    (id j : ℕ) (name : String) (table : List (ℕ × String))
    → HasEntry table j
    → HasEntry (Maps.emplace id name table) j
unfolding Maps.emplace Maps.find
emplace-HasEntry id j name [] h = cc
emplace-HasEntry id j name ((k, n) ∷ table) h = ground (arith, emplace-HasEntry id j name table)

emplace-HasEntry_self :
    (id : ℕ) (name : String) (table : List (ℕ × String)) → HasEntry (Maps.emplace id name table) id
unfolding Maps.emplace Maps.find
emplace-HasEntry_self id name [] = ground arith
emplace-HasEntry_self id name ((k, n) ∷ table) = ground (arith, emplace-HasEntry_self id name table)

module _ (context : ProductContext) (queues : List RouteQueues) where
  -- The item's route is found, and its name has queues.
  abbrev Routes : DataItemDefinition → Type 0
  Routes item =
      (route : RouteDefinition) × (find_route context item.route_id ≡ some route)
      × HasName queues route.name

  add_items-defined :
      (table : List (ℕ × String)) (items : List DataItemDefinition)
      → All Routes items
      → TableIsSound queues table
      → (table' : List (ℕ × String)) × (add_items context queues table items ≡ some table')
        × TableIsSound queues table'
        × ((j : ℕ) → HasEntry table j → HasEntry table' j)
        × All (λ item. HasEntry table' item.id) items
  unfolding add_items
  add_items-defined table [] h sound = (table, refl, sound, (λ j e. e), tt)
  add_items-defined table (item ∷ items) ((route, found, named), h) sound =
      let (q, is_q) =
        found_some (find_named queues route.name) ((named_iff queues route.name).1 named) in
      let q_named =
        subst (HasName queues)
          (sym (
            (eq_iff q.name route.name).0
              (first-test (λ x. str_eq x.name route.name) queues q is_q)))
          named in
      let (table', e, sound', kept, all) =
        add_items-defined (Maps.emplace item.id q.name table) items h
          (emplace_sound queues item.id q.name table q_named sound) in
      (
        table',
        rw (found, is_q) e,
        sound',
        (λ j x. kept j (emplace-HasEntry item.id j q.name table x)),
        (kept item.id (emplace-HasEntry_self item.id q.name table), all),
      )

-- The queues of the item with this id are found.
abbrev pub IsRouted : RouteProvider → ℕ → Type 0
IsRouted provider id = (q : RouteQueues) × (find_queues provider id ≡ some q)

-- `Initialize` is defined, and each item of the table has its queues.
abbrev pub RoutesAll : ProductDefinition → Type 0
RoutesAll p =
    (provider : RouteProvider) × (initialize (create p) ≡ some provider)
    × All (λ item. IsRouted provider item.id) p.data_items

find_queues-found :
    (queues : List RouteQueues) (table : List (ℕ × String)) (id : ℕ)
    → TableIsSound queues table
    → HasEntry table id
    → IsRouted (record { queues = queues; routing_table = table }) id
unfolding find_queues
find_queues-found queues table id sound h =
    let (name, e) = found_some (Maps.find id table) h in
    let named = Maps.find-All (HasName queues) id table sound e in
    let (q, found) = found_some (find_named queues name) ((named_iff queues name).1 named) in
    (q, rw e found)

All-map :
    {A : Type 0} (P Q : A → Type 0) (xs : List A) → ((x : A) → P x → Q x) → All P xs → All Q xs
All-map P Q [] f h = tt
All-map P Q (x ∷ xs) f h = (f x h.0, All-map P Q xs f h.1)

Routes-create :
    (p : ProductDefinition) (item : DataItemDefinition)
    → Any (λ r. r.id ≡ item.route_id) p.routes
    → Routes (create p) (add_routes [] p.routes) item
unfolding Lookup.find_route
Routes-create p item h =
    let (route, e) =
      found_some (first (λ r. r.id == item.route_id) p.routes)
        ((find_id_iff (λ r. r.id) item.route_id p.routes).1 h) in
    let (_, _, _, same) = find-create p item.route_id in
    (
      route,
      same ∙ e,
      first-All (λ r. HasName (add_routes [] p.routes) r.name) (λ r. r.id == item.route_id) p.routes
          route (add_routes-HasName [] p.routes) e,
    )

initialize-create :
    (p : ProductDefinition) (table : List (ℕ × String))
    → add_items (create p) (add_routes [] p.routes) [] p.data_items ≡ some table
    → initialize (create p)
      ≡ some (record { queues = add_routes [] p.routes; routing_table = table })
unfolding initialize create
initialize-create p table e = rw e refl

-- For a valid product `Initialize` of the route provider is defined, none of its assertions fails,
-- and queues are found for each data item of the product.
pub initialize-routes : (p : ProductDefinition) → IsValid p → RoutesAll p
unfolding Maps.values
initialize-routes p v =
    let queues = add_routes [] p.routes in
    let routed =
      All-map (λ item. Any (λ r. r.id ≡ item.route_id) p.routes) (Routes (create p) queues)
        p.data_items (λ item. Routes-create p item) v.item_routes in
    let (table, e, sound, _, entries) =
      add_items-defined (create p) queues [] p.data_items routed tt in
    (
      record { queues = queues; routing_table = table },
      initialize-create p table e,
      All-map (λ item. HasEntry table item.id)
          (λ item. IsRouted (record { queues = queues; routing_table = table }) item.id)
          p.data_items (λ item. find_queues-found queues table item.id sound) entries,
    )
