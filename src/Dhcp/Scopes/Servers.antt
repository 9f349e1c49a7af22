-- ===== src/Dhcp/Scopes/Servers.antt =====
-- apps/ui/src/pages/dhcp/ScopesTab.tsx: the list of DNS servers as a text, and read back.
use mantis_dns.Base.{
  Bool, true, false, not, ◌&&◌, ◌||◌, List, [], ◌∷◌, ◌++◌, map, all, keep_if, ◌==◌, ◌≡◌, refl, ◌∙◌,
  ap, append_assoc, arith, &&_true,
}
use mantis_dns.Base.Text.Split.{
  in_front, split, is_free, is_spaceless, split-free, split-last, trim-spaceless,
}
use mantis_dns.Base.Text.{Text, codes, is_empty, is_space, join, trim, trim_start}

-- `v.dns_servers.split(",").map((s) => s.trim()).filter(Boolean)`.
unfoldable pub split_servers : Text → List Text
unfolding split trim
split_servers s = keep_if (λ t. not (is_empty t)) (map trim (split b',' s))

-- A server's address: it is not empty, and has no comma and no white space.
abbrev pub is_server : Text → Bool
is_server s = not (is_empty s) && all (λ c. not (c == b',' || is_space c)) s

abbrev plain : Text → Bool
plain = all λ c. not (c == b',' || is_space c)

plain-both : (s : Text) → plain s ≡ true → (is_free b',' s ≡ true) × (is_spaceless s ≡ true)
plain-both [] h = (refl, refl)
plain-both (c ∷ s) h =
    let (head, rest) = &&_true (not (c == b',' || is_space c)) (plain s) h in
    let (free, spaceless) = plain-both s rest in go (c == b',') (is_space c) head free spaceless
  where
    go :
        (a b : Bool)
        → not (a || b) ≡ true
        → is_free b',' s ≡ true
        → is_spaceless s ≡ true
        → ((not a && is_free b',' s) ≡ true) × ((not b && is_spaceless s) ≡ true)
    go false false e free spaceless = (free, spaceless)
    go false true e free spaceless = ground arith
    go true b e free spaceless = ground arith

trim-space : (s : Text) → trim (b' ' ∷ s) ≡ trim s
unfolding trim trim_start
trim-space s = refl

-- A text with a space in front has the same servers.
split_servers-space : (s : Text) → split_servers (b' ' ∷ s) ≡ split_servers s
unfolding split_servers
split_servers-space s = go (split b',' s)
  where
    go :
        (ts : List Text)
        → keep_if (λ t. not (is_empty t)) (map trim (in_front b' ' ts))
          ≡ keep_if (λ t. not (is_empty t)) (map trim ts)
    go [] = refl
    go (t ∷ ts) = rw (trim-space t) refl

split_servers-cons :
    (s rest : Text) → is_server s ≡ true → split_servers (s ++ b',' ∷ rest) ≡ s ∷ split_servers rest
unfolding split_servers
split_servers-cons s rest h =
    let (full, clean) = &&_true (not (is_empty s)) (plain s) h in
    let (free, spaceless) = plain-both s clean in
    rw (split-free b',' s rest free, trim-spaceless s spaceless, full) refl

split_servers-last : (s : Text) → is_server s ≡ true → split_servers s ≡ s ∷ []
unfolding split_servers
split_servers-last s h =
    let (full, clean) = &&_true (not (is_empty s)) (plain s) h in
    let (free, spaceless) = plain-both s clean in
    rw (split-last b',' s free, trim-spaceless s spaceless, full) refl

split_servers_empty : split_servers [] ≡ []
unfolding split_servers
split_servers_empty = refl

-- A list of servers that is written into the form reads back.
pub split_servers-join :
    (servers : List Text)
    → all is_server servers ≡ true
    → split_servers (join (codes ", ") servers) ≡ servers
unfolding join
split_servers-join [] h = split_servers_empty
split_servers-join (s ∷ []) h = split_servers-last s (&&_true (is_server s) true h).0
split_servers-join (s ∷ t ∷ ts) h =
    let (first, others) = &&_true (is_server s) (all is_server (t ∷ ts)) h in
    ap split_servers (append_assoc s (codes ", ") (join (codes ", ") (t ∷ ts)))
    ∙ split_servers-cons s (b' ' ∷ join (codes ", ") (t ∷ ts)) first
    ∙ ap (◌∷◌ s)
        (split_servers-space (join (codes ", ") (t ∷ ts)) ∙ split_servers-join (t ∷ ts) others)
