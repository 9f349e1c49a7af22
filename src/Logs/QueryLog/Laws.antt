-- ===== src/Logs/QueryLog/Laws.antt =====
-- The query log's pages.
use mantis_dns.Base.{
  &&_true, Bool-cases, inl, inr, not, ◌&&◌, Bool, subst, ◌*◌, ℕ, ◌+◌, ◌-◌, String, Bool, true,
  false, Option, some, List, [], ◌∷◌, ◌≡◌, refl, ◌∙◌, ap, sym, str_eq, eq_iff, arith, ltb,
}
use mantis_dns.Base.Text.{Text, codes, or_text, show, digits}
use mantis_dns.Base.Text.Decimal.{number, number-show}
use mantis_dns.Api.Hooks.Monitoring.{query_log_page_size}
use mantis_dns.Navigation.UrlFilters.{Params, get, values, set_filters}
use mantis_dns.Navigation.UrlFilters.Laws.{IsObject, values-set_filters, in_patch, given}
use mantis_dns.Logs.QueryLog.{
  log_defaults, LogState, text_of, text_or_empty, to_start, filter_value, log_offset, has_prev,
  has_next, LogEvent, decision_change, hours_change, qname_change, client_ip_change, qtype_change,
  category_change, qname_settled, client_ip_settled, previous, next, log_step, log_run,
}

number-or_text : (t : Text) → number (or_text t (codes "0")) ≡ number t
unfolding number
number-or_text [] = refl
number-or_text (c ∷ t) = refl

-- The offset after `setFilters`.
log_offset-set_filters :
    (patch : List (String × Option Text)) (s t : LogState)
    → t.params ≡ set_filters log_defaults patch s.params
    → IsObject patch
    → log_offset t
      ≡ number (given (codes "0") (in_patch "offset" patch) (filter_value "offset" s.params))
unfolding log_offset filter_value get values
log_offset-set_filters patch s t e o =
    number-or_text (filter_value "offset" t.params)
    ∙ ap (λ (ps : Params). number (filter_value "offset" ps)) e
    ∙ ap (λ v. number (text_of v))
        (values-set_filters log_defaults patch s.params "offset" (codes "0") refl o)

-- The offset after a patch that sets it.
log_offset-moved :
    (n : ℕ) (s t : LogState)
    → t.params ≡ set_filters log_defaults (("offset", some (show n)) ∷ []) s.params
    → log_offset t ≡ some n
log_offset-moved n s t e =
    log_offset-set_filters (("offset", some (show n)) ∷ []) s t e (refl, tt) ∙ number-show n

-- The offset after a patch that sets another filter and goes back to the start.
log_offset-restarted :
    (k : String) (v : Option Text) (s t : LogState)
    → str_eq k "offset" ≡ false
    → t.params ≡ set_filters log_defaults ((k, v) ∷ to_start ∷ []) s.params
    → log_offset t ≡ some 0
unfolding number
log_offset-restarted k v s t other e =
    log_offset-set_filters ((k, v) ∷ to_start ∷ []) s t e
      (ground (arith, eq_iff k "offset", eq_iff "offset" k), (refl, tt))
    ∙ rw (other) refl

-- The offset after a patch that only sets another filter.
log_offset-kept :
    (k : String) (v : Option Text) (s t : LogState)
    → str_eq k "offset" ≡ false
    → t.params ≡ set_filters log_defaults ((k, v) ∷ []) s.params
    → log_offset t ≡ log_offset s
unfolding log_offset
log_offset-kept k v s t other e =
    log_offset-set_filters ((k, v) ∷ []) s t e (refl, tt)
    ∙ rw (other) (sym (number-or_text (filter_value "offset" s.params)))

-- The events that change what the log is filtered by.
abbrev refilters : LogEvent → Bool
refilters (decision_change v) = true
refilters (hours_change v) = true
refilters (qname_change v) = true
refilters (client_ip_change v) = true
refilters (qtype_change v) = true
refilters (category_change v) = true
refilters _ = false

-- Each handler that changes a filter goes back to the first page.
pub log_step-refilters :
    (e : LogEvent) (s : LogState) → refilters e ≡ true → log_offset (log_step e s) ≡ some 0
unfolding log_step show digits
log_step-refilters (decision_change v) s h =
    log_offset-restarted "decision" (some v) s (log_step (decision_change v) s) refl refl
log_step-refilters (hours_change v) s h =
    log_offset-restarted "hours" (some v) s (log_step (hours_change v) s) refl refl
log_step-refilters (qname_change v) s h = log_offset-moved 0 s (log_step (qname_change v) s) refl
log_step-refilters (client_ip_change v) s h =
    log_offset-moved 0 s (log_step (client_ip_change v) s) refl
log_step-refilters (qtype_change v) s h =
    log_offset-restarted "qtype" (some (text_or_empty v)) s (log_step (qtype_change v) s) refl refl
log_step-refilters (category_change v) s h =
    log_offset-restarted "category" (some (text_or_empty v)) s (log_step (category_change v) s) refl
      refl
log_step-refilters e s h = ground arith

-- The effects that write a settled input into the URL keep the offset, so a shared link's page survives.
pub log_step-settled :
    (s : LogState)
    → (log_offset (log_step qname_settled s) ≡ log_offset s)
      × (log_offset (log_step client_ip_settled s) ≡ log_offset s)
unfolding log_step log_offset
log_step-settled s = (
  log_offset-kept "qname" (some s.qname_input) s (log_step qname_settled s) refl refl,
  log_offset-kept "client_ip" (some s.client_ip_input) s (log_step client_ip_settled s) refl refl,
)

next_offset :
    (s : LogState) (o : ℕ) (rows : Option ℕ)
    → log_offset s ≡ some o
    → has_next rows ≡ true
    → log_offset (log_step (next rows false) s) ≡ some (o + query_log_page_size)
unfolding log_step
next_offset s o rows e h =
    log_offset-moved (o + query_log_page_size) s (log_step (next rows false) s) (rw (h, e) refl)

has_prev-at : (s : LogState) (o : ℕ) → log_offset s ≡ some o → has_prev s ≡ ltb 0 o
unfolding has_prev
has_prev-at s o e = rw (e, has_prev) refl

previous_offset :
    (s : LogState) (o : ℕ)
    → log_offset s ≡ some o
    → ltb 0 o ≡ true
    → log_offset (log_step (previous false) s) ≡ some (o - query_log_page_size)
unfolding log_step
previous_offset s o e l =
    log_offset-moved (o - query_log_page_size) s (log_step (previous false) s)
      (rw (has_prev-at s o e ∙ l, e) refl)

-- Pressing "next" on a full page, while nothing is loading, asks for the rows after it, and
-- pressing "previous" there asks for the page that was left.
pub log_step-next :
    (s : LogState) (o : ℕ) (rows : Option ℕ)
    → log_offset s ≡ some o
    → has_next rows ≡ true
    → let after = log_step (next rows false) s in
      (log_offset after ≡ some (o + query_log_page_size))
      × (has_prev after ≡ true)
      × (log_offset (log_step (previous false) after) ≡ some o)
log_step-next s o rows e h =
    let after = log_step (next rows false) s in
    let asked = next_offset s o rows e h in
    let later : ltb 0 (o + query_log_page_size) ≡ true = ground arith in
    (
      asked,
      has_prev-at after (o + query_log_page_size) asked ∙ later,
      previous_offset after (o + query_log_page_size) asked later ∙ ap some (omega arith),
    )

-- The offset is the start of a page.
abbrev pub IsPaged : LogState → Type 0
IsPaged s = (k : ℕ) × (log_offset s ≡ some (k * query_log_page_size))

log_step_kept :
    (e : LogEvent) (s : LogState) → log_step e s ≡ s → IsPaged s → IsPaged (log_step e s)
log_step_kept e s same h = subst IsPaged (sym same) h

log_step-previous_stays :
    (s : LogState) (b : Bool) → (has_prev s && not b) ≡ false → log_step (previous b) s ≡ s
unfolding log_step
log_step-previous_stays s b h = rw (h) refl

log_step-next_stays :
    (s : LogState) (rows : Option ℕ) (b : Bool)
    → (has_next rows && not b) ≡ false
    → log_step (next rows b) s ≡ s
unfolding log_step
log_step-next_stays s rows b h = rw (h) refl

log_step-IsPaged : (e : LogEvent) (s : LogState) → IsPaged s → IsPaged (log_step e s)
log_step-IsPaged qname_settled s (k, h) = (k, (log_step-settled s).0 ∙ h)
log_step-IsPaged client_ip_settled s (k, h) = (k, (log_step-settled s).1 ∙ h)
log_step-IsPaged (previous b) s (k, h) = elim (Bool-cases (has_prev s && not b)) [
  | inr stays ↦ log_step_kept (previous b) s (log_step-previous_stays s b stays) (k, h)
  | inl pressed ↦
      let (shown, idle) = &&_true (has_prev s) (not b) pressed in
      let off : b ≡ false = ground arith in
      (
        k - 1,
        ap (λ (c : Bool). log_offset (log_step (previous c) s)) off
            ∙ previous_offset s (k * query_log_page_size) h
                (sym (has_prev-at s (k * query_log_page_size) h) ∙ shown)
            ∙ ap some (omega arith),
      )
]
log_step-IsPaged (next rows b) s (k, h) = elim (Bool-cases (has_next rows && not b)) [
  | inr stays ↦ log_step_kept (next rows b) s (log_step-next_stays s rows b stays) (k, h)
  | inl pressed ↦
      let (full, idle) = &&_true (has_next rows) (not b) pressed in
      let off : b ≡ false = ground arith in
      (
        k + 1,
        ap (λ (c : Bool). log_offset (log_step (next rows c) s)) off
            ∙ next_offset s (k * query_log_page_size) rows h full
            ∙ ap some (omega arith),
      )
]
log_step-IsPaged (decision_change v) s h = (0, log_step-refilters (decision_change v) s refl)
log_step-IsPaged (hours_change v) s h = (0, log_step-refilters (hours_change v) s refl)
log_step-IsPaged (qname_change v) s h = (0, log_step-refilters (qname_change v) s refl)
log_step-IsPaged (client_ip_change v) s h = (0, log_step-refilters (client_ip_change v) s refl)
log_step-IsPaged (qtype_change v) s h = (0, log_step-refilters (qtype_change v) s refl)
log_step-IsPaged (category_change v) s h = (0, log_step-refilters (category_change v) s refl)

-- On a page that was opened at the start of a page of rows, the query asks for the start of one after any
-- events: filters that change, inputs that settle, and buttons that are pressed.
pub log_run-IsPaged : (es : List LogEvent) (s : LogState) → IsPaged s → IsPaged (log_run es s)
unfolding log_run
log_run-IsPaged [] s h = h
log_run-IsPaged (e ∷ es) s h = log_run-IsPaged es (log_step e s) (log_step-IsPaged e s h)
