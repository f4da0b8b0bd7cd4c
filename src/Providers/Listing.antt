-- ===== src/Providers/Listing.antt =====
-- The list of providers against the provider of an id.
use bodhrik_fullstack_assess.Common.{
  ℕ, ◌≤◌, String, ◌≡◌, refl, Bool, true, ◌&&◌, Option, some, List, arith, length, drop,
  length-take-le, All,
}
use bodhrik_fullstack_assess.Common.Table.{select, order_by, page, All-select, All-page}
use bodhrik_fullstack_assess.Models.{UserRole, role_eq, User}
use bodhrik_fullstack_assess.Session.{Session, ok, find_user}
use bodhrik_fullstack_assess.Common.Separate.{
  UniqueKeys, UniqueKeys-found, All-both, All-select_keeps,
}
use bodhrik_fullstack_assess.Providers.{
  Matching, matches_search, by_name, list_providers, get_provider_by_id,
}

get_provider_by_id_found :
    (k : ℕ) (s : Session) (u : User)
    → find_user k s.working ≡ some u
    → role_eq u.role UserRole.provider ≡ true
    → get_provider_by_id k s ≡ (ok u, s)
unfolding get_provider_by_id
get_provider_by_id_found k s u found role = ground (arith, found, role)

-- Every user on a page of `list_providers` matches the search and is one that `get_provider_by_id`
-- returns under its id, so a provider; a page has at most `limit` of them. It takes unique ids.
pub list_providers_get :
    (matching : Matching) (search : Option String) (skip limit : ℕ) (s : Session)
    → UniqueKeys (λ (u : User). u.id) s.working.users
    → (us : List User) × (list_providers matching search skip limit s ≡ (ok us, s))
      × All
          (λ u. (matches_search matching search u ≡ true) × (get_provider_by_id u.id s ≡ (ok u, s)))
          us
      × (length us ≤ limit)
unfolding list_providers
list_providers_get matching search skip limit s unique =
    let test : User → Bool =
      λ u. role_eq u.role UserRole.provider && matches_search matching search u in
    let found = select test s.working.users in
    let rows = order_by (by_name matching) found in
    (
      page skip limit rows,
      refl,
      All-page
          (λ u. (matches_search matching search u ≡ true) × (get_provider_by_id u.id s ≡ (ok u, s)))
          (by_name matching) skip limit found
          (All-both
            (λ u here passed. (ground arith, get_provider_by_id_found u.id s u here (ground arith)))
            found
            (All-select_keeps (λ u. find_user u.id s.working ≡ some u) test s.working.users
              (UniqueKeys-found (λ u. u.id) s.working.users unique))
            (All-select test s.working.users)),
      length-take-le limit (drop skip rows),
    )
