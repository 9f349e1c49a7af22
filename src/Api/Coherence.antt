-- ===== src/Api/Coherence.antt =====
-- The cache keys of apps/ui/src/api/hooks.ts against the URLs of its requests: two places of each hook
-- that are written apart. The server's collections are nested as the URLs are.
use mantis_dns.Base.{
  String, str_eq, Bool, true, false, not, ◌&&◌, ◌||◌, Option, none, some, List, [], ◌∷◌, ◌++◌, map,
  keep_if, arith, ◌≡◌, refl,
}
use mantis_dns.Base.Text.{Text, codes, is_empty, text_eq}
use mantis_dns.Base.Text.Split.{split}
use mantis_dns.Api.Request.{PathPart, lit, param, opt_word}
use mantis_dns.Api.Cache.{
  part_eq, reached, QueryClient, IsLawful, apply_ops, served, served-apply_ops,
}
use mantis_dns.Api.Queries.{
  QueryHook, query_spec, users, groups, policy, block_page_template, upstream_routes,
  upstream_tenant_policy, dhcp_reservations, dhcp_reservations6, clients,
}
use mantis_dns.Api.Mutations.{
  MutationHook, effects, sent, create_user, create_group, upsert_policy, upsert_block_page_template,
  create_upstream_route, update_upstream_route, delete_upstream_route,
  upsert_upstream_tenant_policy, create_dhcp_reservation, update_dhcp_reservation,
  delete_dhcp_reservation, create_dhcp_reservation6, update_dhcp_reservation6,
  delete_dhcp_reservation6, register_client, delete_client,
}

-- A segment of a URL: a word of the source, or a value put in its place.
pub data Segment : Type 0 where
  fixed : Text → Segment
  given : Option String → Segment

abbrev pub segments : List PathPart → List Segment
unfolding split
segments [] = []
segments (lit s ∷ ps) =
    map fixed (keep_if (λ t. not (is_empty t)) (split b'/' (codes s))) ++ segments ps
segments (param v ∷ ps) = given v ∷ segments ps

abbrev pub same_id : Option String → Option String → Bool
same_id none none = true
same_id (some a) (some b) = str_eq a b
same_id _ _ = false

abbrev pub same_segment : Segment → Segment → Bool
same_segment (fixed a) (fixed b) = text_eq a b
same_segment (given a) (given b) = same_id a b
same_segment _ _ = false

abbrev pub same_path : List Segment → List Segment → Bool
same_path [] [] = true
same_path (r ∷ rs) (s ∷ ss) = same_segment r s && same_path rs ss
same_path _ _ = false

abbrev pub below : Segment → Option (List Segment) → Option (List Segment)
below s none = none
below s (some ss) = some (s ∷ ss)

-- The collection of an element: the URL without the id at its end, if it ends with one.
abbrev pub collection : List Segment → Option (List Segment)
collection [] = none
collection (fixed w ∷ []) = none
collection (given v ∷ []) = some []
collection (s ∷ t ∷ ss) = below s (collection (t ∷ ss))

abbrev pub is_collection : Option (List Segment) → List Segment → Bool
is_collection none path = false
is_collection (some up) path = same_path up path

-- The mutation's URL is that of the query, or that of an element of what the query lists.
unfoldable pub addresses : MutationHook → QueryHook → Bool
unfolding sent query_spec segments
addresses m q =
    let changed = segments (sent m).path in
    let shown = segments (query_spec q).query_fn.path in
    same_path changed shown || is_collection (collection changed) shown

-- The `onSuccess` of the mutation names the key of the query, or a beginning of it.
abbrev pub invalidates : MutationHook → QueryHook → Bool
invalidates m q = reached (effects m) (query_spec q).query_key

same-id : (a b : Option String) → part_eq (opt_word a) (opt_word b) ≡ same_id a b
same-id none none = refl
same-id (some a) (some b) = refl
same-id none (some b) = refl
same-id (some a) none = refl

pub addresses-invalidates :
    (m : MutationHook) (q : QueryHook) → addresses m q ≡ true → invalidates m q ≡ true
unfolding addresses effects query_spec sent
addresses-invalidates (create_group a _) (groups b) h = ground (arith, same-id a b)
addresses-invalidates (upsert_policy a _) (policy b) h = ground (arith, same-id a b)
addresses-invalidates (upsert_block_page_template a _) (block_page_template b) h =
    ground (arith, same-id a b)
addresses-invalidates (create_upstream_route a _) (upstream_routes b) h =
    ground (arith, same-id a b)
addresses-invalidates (update_upstream_route a _) (upstream_routes b) h =
    ground (arith, same-id a b)
addresses-invalidates (delete_upstream_route a _) (upstream_routes b) h =
    ground (arith, same-id a b)
addresses-invalidates (upsert_upstream_tenant_policy a _) (upstream_tenant_policy b) h =
    ground (arith, same-id a b)
addresses-invalidates (create_dhcp_reservation a _) (dhcp_reservations b) h =
    ground (arith, same-id a b)
addresses-invalidates (update_dhcp_reservation a _) (dhcp_reservations b) h =
    ground (arith, same-id a b)
addresses-invalidates (delete_dhcp_reservation a _) (dhcp_reservations b) h =
    ground (arith, same-id a b)
addresses-invalidates (create_dhcp_reservation6 a _) (dhcp_reservations6 b) h =
    ground (arith, same-id a b)
addresses-invalidates (update_dhcp_reservation6 a _) (dhcp_reservations6 b) h =
    ground (arith, same-id a b)
addresses-invalidates (delete_dhcp_reservation6 a _) (dhcp_reservations6 b) h =
    ground (arith, same-id a b)
addresses-invalidates (register_client a _) (clients b _) h = ground (arith, same-id a b)
addresses-invalidates (delete_client a _) (clients b _) h = ground (arith, same-id a b)
addresses-invalidates (create_user _) users h = refl
addresses-invalidates _ _ h = ground arith

-- After a mutation the entries that are still served without a refetch are those that were served
-- before and that its `onSuccess` does not name, whatever cache meets the documented behaviour.
pub served-effects :
    (qc : QueryClient) (L : IsLawful qc) (m : MutationHook) (q : QueryHook) (c : qc.Cache)
    → served qc (apply_ops qc (effects m) c) (query_spec q).query_key
      ≡ (served qc c (query_spec q).query_key && not (invalidates m q))
served-effects qc L m q c = served-apply_ops qc L (effects m) c (query_spec q).query_key
