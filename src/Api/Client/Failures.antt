-- ===== src/Api/Client/Failures.antt =====
-- What the user reads of a failed request: client.ts makes the error, errors.ts shows it.
use mantis_dns.Base.{
  map, ℕ, ◌≤◌, ◌<◌, false, Option, none, some, List, [], ◌∷◌, ◌++◌, ◌≡◌, refl, arith, ap, length,
}
use mantis_dns.Base.Text.{Text, codes, is_empty, text_eq, join}
use mantis_dns.Base.Json.{Json, Members, str, arr, obj, of_list}
use mantis_dns.Base.Platform.{Platform, IsFaithful}
use mantis_dns.Api.Outcome.{Outcome, value, thrown}
use mantis_dns.Api.Errors.{to_text, elems_text, format_error, prefix_of, with_detail, detail_text}
use mantis_dns.Api.Errors.Laws.{
  detail_body, entry, entry_text, format_error-detail_body, detail_text-entry,
}
use mantis_dns.Api.Client.{Response, complete, settle, is_ok, http_error}
use mantis_dns.Api.Client.Typed.{ApiResult, unwrap}

-- The message that a user sees of a thrown error, and nothing for a value.
abbrev pub shown : Platform → Outcome (Option Json) → Option Text
shown p (value v) = none
shown p (thrown e) = some (format_error p e)

-- `${prefix}: ${detail}`, where the detail says more than the prefix.
abbrev Says : Text → Text → Type 0
Says prefix detail = (is_empty detail ≡ false) × (text_eq detail prefix ≡ false)

module _ (p : Platform) (F : IsFaithful p) where
  -- Through the `raw…` functions, a response with a three-digit status that is not ok and the body
  -- `{"detail": text}` is shown as the prefix of its status, a colon and the text, where the text
  -- is neither empty nor the prefix itself, and JSON reads back as it was written.
  pub shown-settle :
      (r : Response) (d : Text)
      → 100 ≤ r.status
      → r.status < 1000
      → is_ok r.status ≡ false
      → r.body ≡ complete (p.stringify (detail_body (str d)))
      → Says (prefix_of r.status) d
      → shown p (settle p r) ≡ some (prefix_of r.status ++ codes ": " ++ d)
  unfolding settle with_detail detail_text
  shown-settle r d h l bad body says =
      ground (arith, format_error-detail_body p F r.status (str d) h l)

  -- Through the `raw…` functions, a response with a three-digit status that is not ok and the body
  -- of a validation error with at least one entry is shown as the prefix of its status, a colon and
  -- the messages of all its entries, in their order, joined by semicolons, where these together are
  -- neither empty nor the prefix itself, and JSON reads back as it was written.
  pub shown-settle_validation :
      (r : Response) (e : Json × Text) (es : List (Json × Text))
      → 100 ≤ r.status
      → r.status < 1000
      → is_ok r.status ≡ false
      → r.body ≡ complete (p.stringify (detail_body (arr (of_list (map entry (e ∷ es))))))
      → Says (prefix_of r.status) (join (codes "; ") (map entry_text (e ∷ es)))
      → shown p (settle p r)
        ≡ some (prefix_of r.status ++ codes ": " ++ join (codes "; ") (map entry_text (e ∷ es)))
  unfolding settle with_detail
  shown-settle_validation r e es h l bad body says = ground (
    arith,
    format_error-detail_body p F r.status (arr (of_list (map entry (e ∷ es)))) h l,
    detail_text-entry e es,
  )

abbrev pub failed : ℕ → Json → ApiResult
failed status error = record { payload = none; error = some error; status = status }

elems_text-obj :
    (es fs : List Members)
    → length es ≡ length fs
    → elems_text (of_list (map obj es)) ≡ elems_text (of_list (map obj fs))
unfolding elems_text
elems_text-obj [] [] h = refl
elems_text-obj [] (f ∷ fs) h = absurd (omega arith)
elems_text-obj (e ∷ es) [] h = absurd (omega arith)
elems_text-obj (e ∷ []) (f ∷ []) h = refl
elems_text-obj (e ∷ []) (f ∷ f' ∷ fs) h = absurd (omega arith)
elems_text-obj (e ∷ e' ∷ es) (f ∷ []) h = absurd (omega arith)
elems_text-obj (e ∷ e' ∷ es) (f ∷ f' ∷ fs) h =
    ap (λ (t : Text). codes "[object Object]" ++ codes "," ++ t)
      (elems_text-obj (e' ∷ es) (f' ∷ fs) (omega arith))

-- Through the typed client the messages of a validation error are lost: two errors with the same
-- status and the same number of entries throw the same error, whatever their entries say.
pub unwrap-validation :
    (p : Platform) (status : ℕ) (es fs : List Members)
    → length es ≡ length fs
    → unwrap p (failed status (detail_body (arr (of_list (map obj es)))))
      ≡ unwrap p (failed status (detail_body (arr (of_list (map obj fs)))))
unfolding unwrap to_text
unwrap-validation p status es fs h =
    ap (λ (t : Text). thrown (http_error status t)) (elems_text-obj es fs h)
