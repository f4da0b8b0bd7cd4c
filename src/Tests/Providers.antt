-- ===== src/Tests/Providers.antt =====
-- The list of providers.
use bodhrik_fullstack_assess.Common.{
  ◌≤◌, ◌≡◌, refl, true, false, some, List, [], ◌∷◌, str_eq, ◌<>◌, length, All,
}
use bodhrik_fullstack_assess.Models.{User}
use bodhrik_fullstack_assess.Session.{ok}
use bodhrik_fullstack_assess.Common.Table.{order_by}
use bodhrik_fullstack_assess.Providers.{get_provider_by_id}
use bodhrik_fullstack_assess.Tests.Data.{provider, s}
use bodhrik_fullstack_assess.Providers.{Matching, matches_search, list_providers}
use bodhrik_fullstack_assess.Providers.Listing.{list_providers_get}

abbrev pub matching : Matching
matching = record {
  strip = λ t. t;
  ilike = λ value pattern. str_eq ("%" <> value <> "%") pattern;
  name_before = λ a b. false;
}

one_match : list_providers matching (some "Name") 0 20 s ≡ (ok (provider ∷ []), s)
unfolding list_providers order_by
one_match = refl

list_providers_get_example :
    (us : List User) × (list_providers matching (some "Name") 0 20 s ≡ (ok us, s))
    × All
        (λ u.
          (matches_search matching (some "Name") u ≡ true)
          × (get_provider_by_id u.id s ≡ (ok u, s)))
        us
    × (length us ≤ 20)
list_providers_get_example =
    list_providers_get matching (some "Name") 0 20 s (refl, (refl, (refl, (refl, tt))))
