-- ===== src/Store/Tests.antt =====
-- Calls of a store (client/resource.go).
use incus_compose.Prelude.{◌≡◌, refl, sym, ap, some, [], ◌∷◌, arith}
use incus_compose.Store.{Resource, get, add, remove, keep_created, created, get_or_create}
use incus_compose.Store.Unique.{IsUnique}
use incus_compose.Store.Lookup.{get_or_create-again}

abbrev web : Resource
web = record { id = 1; kind = "instance"; name = "web"; incus_name = "web-1" }

abbrev net : Resource
net = record { id = 2; kind = "network"; name = "net"; incus_name = "net-1" }

net-IsUnique : IsUnique (net ∷ [])
net-IsUnique kind name incus = ground arith

made_web : get_or_create "instance" "web-1" (some web) (net ∷ []) ≡ (some web, net ∷ web ∷ [])
unfolding get_or_create created keep_created get add
made_web = refl

remove_test : remove web (net ∷ web ∷ []) ≡ net ∷ []
unfolding remove
remove_test = refl

get_or_create-again_example :
    IsUnique (net ∷ web ∷ [])
    × (get_or_create "instance" "web-1" (some web) (net ∷ web ∷ []) ≡ (some web, net ∷ web ∷ []))
get_or_create-again_example =
    get_or_create-again "instance" "web-1" (some web) (net ∷ [])
      (λ m same. let it : web ≡ m = cc same in sym (ap (λ r. r.kind) it)) net-IsUnique made_web
