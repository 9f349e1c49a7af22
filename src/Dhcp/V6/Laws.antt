-- ===== src/Dhcp/V6/Laws.antt =====
-- What the forms of DHCPv6 submit.
use mantis_dns.Base.{true, some, ◌≡◌, refl, all}
use mantis_dns.Forms.Optional.{is_stored, or_null-or_blank}
use mantis_dns.Dhcp.Scopes.Servers.{is_server, split_servers-join}
use mantis_dns.Dhcp.V6.Scopes.{Scope6, scope6_values, scope6_body}

-- A DHCPv6 scope as the API stores it.
pub record IsStored (s : Scope6) : Type 0 where
  pub dns_servers : all is_server s.dns_servers ≡ true
  pub description : is_stored s.description ≡ true
  pub pd_prefix : is_stored s.pd_prefix ≡ true
  pub domain_name : is_stored s.domain_name ≡ true
  pub interface : is_stored s.interface ≡ true

-- A DHCPv6 scope as it is stored, with no optional text that is empty and DNS servers that are not
-- empty and hold no comma and no white space, is sent as it is when it is opened for editing and
-- saved without a change.
pub scope6_body-scope6_values : (s : Scope6) → IsStored s → scope6_body (scope6_values (some s)) ≡ s
unfolding scope6_body scope6_values
scope6_body-scope6_values s i =
    rw
      (
        split_servers-join s.dns_servers i.dns_servers,
        or_null-or_blank s.description i.description,
        or_null-or_blank s.pd_prefix i.pd_prefix,
        or_null-or_blank s.domain_name i.domain_name,
        or_null-or_blank s.interface i.interface,
      )
      refl
