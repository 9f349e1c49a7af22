-- ===== src/Logs/AuditLog.antt =====
-- apps/ui/src/pages/AuditPage.tsx: the filter and the offset of the page, the query that it makes, and
-- its two buttons.
pub mod Laws
use mantis_dns.Base.{
  ℕ, ◌+◌, ◌-◌, ◌*◌, ◌/◌, String, Bool, true, false, not, ◌&&◌, Option, none, some, List, [], ◌∷◌,
  if◌then◌else◌, ◌==◌, ltb,
}
use mantis_dns.Api.Request.{QuerySpec}
use mantis_dns.Api.Hooks.Monitoring.{use_audit_log, audit_page_size}

pub record AuditState : Type 0 where
  pub resource_type : Option String
  pub offset : ℕ

unfoldable pub open_audit : AuditState
open_audit = record { resource_type = none; offset = 0 }

unfoldable audit_query : AuditState → QuerySpec
unfolding use_audit_log
audit_query s = use_audit_log s.resource_type s.offset

unfoldable pub audit_page : AuditState → ℕ
audit_page s = s.offset / audit_page_size + 1

unfoldable pub has_prev : AuditState → Bool
has_prev s = ltb 0 s.offset

-- `(data?.length ?? 0) === AUDIT_PAGE_SIZE`; `none` is no data yet.
unfoldable pub has_next : Option ℕ → Bool
has_next none = false
has_next (some rows) = rows == audit_page_size

-- The buttons are pressed with the rows that are shown and `isLoading`.
pub data AuditEvent : Type 0 where
  choose : Option String → AuditEvent
  previous : Bool → AuditEvent
  next : Option ℕ → Bool → AuditEvent

unfoldable pub audit_step : AuditEvent → AuditState → AuditState
unfolding has_prev has_next
audit_step (choose v) s = record { resource_type = v; offset = 0 }
audit_step (previous is_loading) s =
    if has_prev s && not is_loading then record s { offset = s.offset - audit_page_size } else s
audit_step (next rows is_loading) s =
    if has_next rows && not is_loading then record s { offset = s.offset + audit_page_size } else s

unfoldable pub audit_run : List AuditEvent → AuditState → AuditState
unfolding audit_step
audit_run [] s = s
audit_run (e ∷ es) s = audit_run es (audit_step e s)
