-- ===== src/Tests/Logs.antt =====
-- The pages of the logs at concrete inputs.
use mantis_dns.Base.{false, none, some, [], ◌∷◌, refl}
use mantis_dns.Base.Text.{codes}
use mantis_dns.Logs.AuditLog.{AuditState}
use mantis_dns.Logs.QueryLog.{log_run, LogState, log_offset, qname_settled, previous, next}
use mantis_dns.Logs.QueryLog.Laws.{IsPaged as IsLogPaged, log_run-IsPaged}

abbrev second : AuditState
second = record { resource_type = none; offset = 50 }

abbrev shared_link : LogState
shared_link = record {
  params = ("offset", codes "100") ∷ ("qname", codes "ads") ∷ [];
  qname_input = codes "ads";
  debounced_qname = codes "ads";
  client_ip_input = [];
  debounced_client_ip = [];
}

shared_link-IsPaged : IsLogPaged shared_link
unfolding log_offset
shared_link-IsPaged = (2, refl)

log_run-IsPaged_example :
    IsLogPaged (log_run (next (some 50) false ∷ qname_settled ∷ previous false ∷ []) shared_link)
log_run-IsPaged_example =
    log_run-IsPaged (next (some 50) false ∷ qname_settled ∷ previous false ∷ []) shared_link
      shared_link-IsPaged
