-- ===== src/Logs/AuditLog/Laws.antt =====
-- The audit log's pages.
use mantis_dns.Base.{ℕ, ◌+◌, ◌-◌, ◌*◌, true, false, Option, List, [], ◌∷◌, ◌≡◌, refl, arith}
use mantis_dns.Api.Hooks.Monitoring.{audit_page_size}
use mantis_dns.Logs.AuditLog.{
  AuditState, open_audit, audit_page, has_prev, has_next, AuditEvent, choose, previous, next,
  audit_step, audit_run,
}

-- The offset is the start of the page that the page number names.
abbrev pub IsPaged : AuditState → Type 0
IsPaged s = s.offset ≡ (audit_page s - 1) * audit_page_size

audit_step-IsPaged : (e : AuditEvent) (s : AuditState) → IsPaged s → IsPaged (audit_step e s)
unfolding audit_step audit_page has_prev has_next
audit_step-IsPaged (choose v) s h = refl
audit_step-IsPaged (previous l) s h = ground arith
audit_step-IsPaged (next rows l) s h = ground arith

audit_run-from : (es : List AuditEvent) (s : AuditState) → IsPaged s → IsPaged (audit_run es s)
unfolding audit_run
audit_run-from [] s h = h
audit_run-from (e ∷ es) s h = audit_run-from es (audit_step e s) (audit_step-IsPaged e s h)

-- After any choices and button presses the offset that the query asks for is the start of the page whose
-- number is shown.
pub audit_run-IsPaged : (es : List AuditEvent) → IsPaged (audit_run es open_audit)
unfolding open_audit audit_page
audit_run-IsPaged es = audit_run-from es open_audit refl

-- Pressing "next" on a full page, while nothing is loading, shows the following page number, with
-- "previous" enabled, and pressing that returns to the page that was left.
pub previous-next :
    (s : AuditState) (rows : Option ℕ)
    → has_next rows ≡ true
    → let after = audit_step (next rows false) s in
      (audit_page after ≡ audit_page s + 1)
      × (has_prev after ≡ true)
      × (audit_step (previous false) after ≡ s)
unfolding audit_step audit_page has_prev has_next
previous-next s rows h = (ground arith, ground arith, ground arith)
