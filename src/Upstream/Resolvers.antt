-- ===== src/Upstream/Resolvers.antt =====
-- apps/ui/src/pages/upstream/ResolversTab.tsx.
use mantis_dns.Base.{
  ℕ, String, Bool, true, false, not, ◌&&◌, Option, none, some, List, [], ◌++◌, map, if◌then◌else◌,
  leb,
}
use mantis_dns.Base.Text.{Text, codes, is_empty, trim}
use mantis_dns.Base.Json.{Json, Members, bool, num, str, arr, obj, keyed, end, of_list}
use mantis_dns.Api.Mutations.{
  create_upstream_resolver, update_upstream_resolver, delete_upstream_resolver,
}
use mantis_dns.Forms.Optional.{or_blank}
use mantis_dns.Api.Errors.{format_error}
use mantis_dns.Forms.CrudTab.{Entity}

pub data Protocol : Type 0 where
  do53 dot doh : Protocol

-- `DEFAULT_PORT_BY_PROTOCOL`.
unfoldable pub default_port : Protocol → ℕ
default_port do53 = 53
default_port dot = 853
default_port doh = 443

-- `UpstreamResolver`, less what the form does not edit.
pub record Resolver : Type 0 where
  pub id : String
  pub name : Text
  pub protocol : Protocol
  pub address : Text
  pub port : ℕ
  pub tls_hostname : Option Text
  pub dnssec_validation : Text
  pub timeout_ms : ℕ
  pub max_retries : ℕ
  pub tags : List Text
  pub enabled : Bool

pub record ResolverForm : Type 0 where
  pub name : Text
  pub protocol : Protocol
  pub address : Text
  pub port : ℕ
  pub tls_hostname : Text
  pub dnssec_validation : Text
  pub timeout_ms : ℕ
  pub max_retries : ℕ
  pub tags : List Text
  pub enabled : Bool

unfoldable pub resolver_values : Option Resolver → ResolverForm
unfolding default_port
resolver_values none = record {
  name = [];
  protocol = do53;
  address = [];
  port = default_port do53;
  tls_hostname = [];
  dnssec_validation = codes "opportunistic";
  timeout_ms = 5000;
  max_retries = 2;
  tags = [];
  enabled = true;
}
resolver_values (some r) = record {
  name = r.name;
  protocol = r.protocol;
  address = r.address;
  port = r.port;
  tls_hostname = or_blank r.tls_hostname;
  dnssec_validation = r.dnssec_validation;
  timeout_ms = r.timeout_ms;
  max_retries = r.max_retries;
  tags = r.tags;
  enabled = r.enabled;
}

-- `validate`.
unfoldable pub resolver_valid : ResolverForm → Bool
unfolding trim
resolver_valid v =
    not (is_empty (trim v.name))
    && not (is_empty (trim v.address))
    && leb 1 v.port
    && leb v.port 65535

-- `onChange` of the protocol.
unfoldable pub change_protocol : Protocol → ResolverForm → ResolverForm
unfolding default_port
change_protocol protocol v = record v { protocol = protocol; port = default_port protocol }

abbrev pub needs_tls : Protocol → Bool
needs_tls do53 = false
needs_tls dot = true
needs_tls doh = true

abbrev protocol_text : Protocol → Text
protocol_text do53 = codes "do53"
protocol_text dot = codes "dot"
protocol_text doh = codes "doh"

-- A member that is `undefined` is not in the JSON text.
abbrev tls_member : ResolverForm → Members → Members
tls_member v rest =
    if needs_tls v.protocol && not (is_empty v.tls_hostname)
    then keyed "tls_hostname" (str v.tls_hostname) rest
    else rest

-- `submit`, as the client writes it.
unfoldable pub resolver_body : ResolverForm → Members
resolver_body v = keyed "name" (str v.name) (
    keyed "protocol" (str (protocol_text v.protocol)) (
      keyed "address" (str v.address) (
        keyed "port" (num v.port) (
          tls_member v (
            keyed "dnssec_validation" (str v.dnssec_validation) (
              keyed "timeout_ms" (num v.timeout_ms) (
                keyed "max_retries" (num v.max_retries) (
                  keyed "tags" (arr (of_list (map str v.tags)))
                    (keyed "enabled" (bool v.enabled) end)))))))))

-- The names in the messages are those of the answer and of the row.
unfoldable pub resolvers : (Option Json → Text) → Entity Resolver ResolverForm
unfolding resolver_body
resolvers name_of = record {
  create = λ v. create_upstream_resolver (obj (resolver_body v));
  update = λ r v. update_upstream_resolver (r.id, obj (resolver_body v));
  created_message = λ answer. codes "Resolver \"" ++ name_of answer ++ codes "\" created";
  error_message = format_error;
  updated_message = λ _. codes "Resolver updated";
  remove = λ r. delete_upstream_resolver r.id;
  removed_message = λ r. some (codes "Resolver \"" ++ r.name ++ codes "\" deleted");
}
