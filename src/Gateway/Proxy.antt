-- ===== src/Gateway/Proxy.antt =====
-- The routes of the gateway, the paths that its two reverse proxies ask for, and the routes of the
-- services behind them. A path is the text of its segments, each after a slash; a wildcard takes one
-- segment that is not empty, and a literal segment goes before it, as in `http.ServeMux`. The
-- segments are those of the path before it is unescaped, and none of them holds a slash. A pattern
-- for `GET` takes `HEAD` as well.
use Prim.Native.String.{String, [], ◌∷◌, ◌++◌}
use tf_man.Prelude.{Option, none, some, List, str_eq, strip, if◌then◌else◌}

pub data Method : Type 0 where
  get head post other : Method

-- The method of the patterns that a method matches.
abbrev pub pattern_method : Method → Method
pattern_method head = get
pattern_method m = m

-- The handlers of the gateway, and those of the services.
pub data GatewayRoute : Type 0 where
  ws checkout order search product healthz : GatewayRoute

pub data OrderRoute : Type 0 where
  create_order get_order healthz : OrderRoute

pub data CatalogRoute : Type 0 where
  create_product search_products get_product healthz : CatalogRoute

abbrev pub join : List String → String
join List.[] = []
join (List.◌∷◌ s segments) = ("/" ++ s) ++ join segments

-- A replacement at the front of a text, and else the one further on.
abbrev pub or_after : Option String → String → String → String
or_after (some rest) new after = new ++ rest
or_after none new after = after

-- `strings.Replace(s, old, new, 1)`
pub replace_one : String → String → String → String
unfolding strip
replace_one old new [] = or_after (strip old []) new []
replace_one old new (c ∷ s) = or_after (strip old (c ∷ s)) new (c ∷ replace_one old new s)

-- The `rewritePath` of the two proxies; the path replaces the one that `SetURL` made.
pub order_path : String → String
order_path p = if str_eq p "/checkout" then "/orders" else p

pub catalog_path : String → String
unfolding replace_one
catalog_path p = replace_one "/catalog" "/products" p

unfoldable pub gateway_pattern : Method → List String → Option GatewayRoute
gateway_pattern get (List.◌∷◌ a List.[]) =
    if str_eq a "ws" then some ws else if str_eq a "healthz" then some healthz else none
gateway_pattern get (List.◌∷◌ a (List.◌∷◌ b List.[])) =
    if str_eq b ""
    then none
    else if str_eq a "orders"
    then some order
    else if str_eq a "catalog"
    then (if str_eq b "search" then some search else some product)
    else none
gateway_pattern post (List.◌∷◌ a List.[]) = if str_eq a "checkout" then some checkout else none
gateway_pattern _ _ = none

unfoldable pub gateway_route : Method → List String → Option GatewayRoute
unfolding gateway_pattern
gateway_route method segments = gateway_pattern (pattern_method method) segments

order_pattern : Method → List String → Option OrderRoute
order_pattern post (List.◌∷◌ a List.[]) = if str_eq a "orders" then some create_order else none
order_pattern get (List.◌∷◌ a List.[]) = if str_eq a "healthz" then some healthz else none
order_pattern get (List.◌∷◌ a (List.◌∷◌ b List.[])) =
    if str_eq b "" then none else if str_eq a "orders" then some get_order else none
order_pattern _ _ = none

pub order_route : Method → List String → Option OrderRoute
unfolding order_pattern
order_route method segments = order_pattern (pattern_method method) segments

catalog_pattern : Method → List String → Option CatalogRoute
catalog_pattern post (List.◌∷◌ a List.[]) =
    if str_eq a "products" then some create_product else none
catalog_pattern get (List.◌∷◌ a List.[]) = if str_eq a "healthz" then some healthz else none
catalog_pattern get (List.◌∷◌ a (List.◌∷◌ b List.[])) =
    if str_eq b ""
    then none
    else if str_eq a "products"
    then (if str_eq b "search" then some search_products else some get_product)
    else none
catalog_pattern _ _ = none

pub catalog_route : Method → List String → Option CatalogRoute
unfolding catalog_pattern
catalog_route method segments = catalog_pattern (pattern_method method) segments
