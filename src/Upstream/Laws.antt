-- ===== src/Upstream/Laws.antt =====
-- The form of a resolver.
use mantis_dns.Base.{◌≤◌, Bool, true, false, ◌&&◌, none, ◌≡◌, refl, arith}
use mantis_dns.Base.Text.{is_empty}
use mantis_dns.Base.Json.{field}
use mantis_dns.Upstream.Resolvers.{
  ResolverForm, Protocol, do53, dot, doh, resolver_valid, resolver_body, needs_tls, change_protocol,
}

-- A resolver that passes the checks of the form has a port between 1 and 65535, and so has every
-- resolver whose protocol has just been chosen.
pub resolver_valid-port :
    (v : ResolverForm) (protocol : Protocol)
    → resolver_valid v ≡ true
    → ((1 ≤ v.port) × (v.port ≤ 65535)) × (resolver_valid (change_protocol protocol v) ≡ true)
unfolding resolver_valid change_protocol
resolver_valid-port v do53 h = ground arith
resolver_valid-port v dot h = ground arith
resolver_valid-port v doh h = ground arith

and_false : (b : Bool) → (b && false) ≡ false
and_false true = refl
and_false false = refl

-- An empty TLS host name is not sent: the update of a resolver cannot take away a host name that it
-- has.
pub resolver_body-no_tls :
    (v : ResolverForm)
    → is_empty v.tls_hostname ≡ true
    → field "tls_hostname" (resolver_body v) ≡ none
unfolding resolver_body
resolver_body-no_tls v h = rw (h, and_false (needs_tls v.protocol)) refl
