-- ===== src/Views/Tests.antt =====
-- The theorems on the views at concrete networks.
use incus_compose.Prelude.{◌≡◌, refl, [], ◌∷◌}
use incus_compose.Prelude.Dict.{lookup}
use incus_compose.Views.{Nets, claims, view, release}
use incus_compose.Views.Balance.{release-view, release-lone}

abbrev one_there : Nets
one_there = ("lan", ("lan", 2) ∷ []) ∷ []

release-view_example :
    claims (release ("dmz" ∷ "lan" ∷ []) (view ("dmz" ∷ "lan" ∷ []) one_there).1).1 "lan" "lan"
    ≡ claims one_there "lan" "lan"
release-view_example = release-view ("dmz" ∷ "lan" ∷ []) one_there "lan" "lan"

release-lone_example :
    ((release ("dmz" ∷ []) (view ("dmz" ∷ []) one_there).1).0.1 ≡ [])
    × (claims (release ("dmz" ∷ []) (view ("dmz" ∷ []) one_there).1).1 "dmz" "dmz" ≡ 0)
unfolding claims lookup
release-lone_example = release-lone "dmz" one_there refl
