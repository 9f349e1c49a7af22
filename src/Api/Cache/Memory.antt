-- ===== src/Api/Cache/Memory.antt =====
-- A cache that meets the interface: a list of keys, each with its staleness.
use mantis_dns.Base.{
  Bool, true, false, not, ◌&&◌, ◌||◌, List, [], ◌∷◌, ◌≡◌, refl, arith, if◌then◌else◌,
}
use mantis_dns.Api.Request.{QueryKey}
use mantis_dns.Api.Cache.{partial_match, partial_match_trans, QueryClient, IsLawful}

abbrev Entries : Type 0
Entries = List (QueryKey × Bool)

abbrev key_eq : QueryKey → QueryKey → Bool
key_eq j k = partial_match j k && partial_match k j

abbrev cached : Entries → QueryKey → Bool
cached [] k = false
cached ((j, s) ∷ es) k = key_eq j k || cached es k

abbrev stale : Entries → QueryKey → Bool
stale [] k = false
stale ((j, s) ∷ es) k = (key_eq j k && s) || stale es k

abbrev mark : Entries → QueryKey → Entries
mark [] f = []
mark ((j, s) ∷ es) f = (j, s || partial_match f j) ∷ mark es f

abbrev drop_matching : Entries → QueryKey → Entries
drop_matching [] f = []
drop_matching ((j, s) ∷ es) f =
    let rest = drop_matching es f in if partial_match f j then rest else (j, s) ∷ rest

abbrev pub memory_client : QueryClient
memory_client = record {
  Cache = Entries;
  is_cached = cached;
  is_stale = stale;
  invalidate_queries = mark;
  remove_queries = drop_matching;
}

-- Equal keys match alike.
alike : (f j k : QueryKey) → key_eq j k ≡ true → partial_match f j ≡ partial_match f k
alike f j k h = ground (arith, partial_match_trans f j k, partial_match_trans f k j)

cached-mark : (es : Entries) (f k : QueryKey) → cached (mark es f) k ≡ cached es k
cached-mark [] f k = refl
cached-mark ((j, s) ∷ es) f k = ground (arith, cached-mark es f k)

stale-mark :
    (es : Entries) (f k : QueryKey)
    → stale (mark es f) k ≡ (stale es k || (cached es k && partial_match f k))
stale-mark [] f k = refl
stale-mark ((j, s) ∷ es) f k = ground (arith, alike f j k, stale-mark es f k)

cached-drop_matching :
    (es : Entries) (f k : QueryKey)
    → cached (drop_matching es f) k ≡ (cached es k && not (partial_match f k))
cached-drop_matching [] f k = refl
cached-drop_matching ((j, s) ∷ es) f k = ground (arith, alike f j k, cached-drop_matching es f k)

stale-drop_matching :
    (es : Entries) (f k : QueryKey)
    → stale (drop_matching es f) k ≡ (stale es k && not (partial_match f k))
stale-drop_matching [] f k = refl
stale-drop_matching ((j, s) ∷ es) f k = ground (arith, alike f j k, stale-drop_matching es f k)

pub memory_client-IsLawful : IsLawful memory_client
memory_client-IsLawful = record {
  is_cached-invalidate = cached-mark;
  is_stale-invalidate = stale-mark;
  is_cached-remove = cached-drop_matching;
  is_stale-remove = stale-drop_matching;
}
