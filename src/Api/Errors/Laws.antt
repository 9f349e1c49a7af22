-- ===== src/Api/Errors/Laws.antt =====
-- What `formatError` shows for the errors that client.ts throws.
use mantis_dns.Base.{
  map, ℕ, ◌+◌, ◌*◌, ◌/◌, ◌%◌, ◌≤◌, ◌<◌, some, List, [], ◌∷◌, ◌≡◌, refl, ◌∙◌, arith, ap,
}
use mantis_dns.Base.Text.{Text, codes, trim_start, join}
use mantis_dns.Base.Text.Decimal.{show_three}
use mantis_dns.Base.Json.{Json, str, arr, obj, keyed, end, of_list, elems}
use mantis_dns.Base.Platform.{Platform, IsFaithful}
use mantis_dns.Api.Errors.{
  match_status, prefix_of, extract_detail, with_detail, format_error, messages, detail_text,
  detail_of,
}
use mantis_dns.Api.Errors.{to_text}
use mantis_dns.Api.Client.{http_error}

match_status-digits :
    (a b c : ℕ) (rest : Text)
    → a < 10
    → b < 10
    → c < 10
    → match_status ((b'0' + a) ∷ (b'0' + b) ∷ (b'0' + c) ∷ b':' ∷ b' ' ∷ rest)
      ≡ some (a * 100 + b * 10 + c, trim_start rest)
unfolding match_status trim_start
match_status-digits a b c rest ha hb hc = ground arith

match_status-http_error :
    (status : ℕ) (rest : Text)
    → 100 ≤ status
    → status < 1000
    → match_status (http_error status rest) ≡ some (status, trim_start rest)
match_status-http_error status rest h l = rw (show_three status h l) (
    match_status-digits (status / 100) (status / 10 % 10) (status % 10) rest (omega arith)
      (omega arith) (omega arith)
    ∙ ap (λ (n : ℕ). some (n, trim_start rest)) (omega arith))

-- The bodies of FastAPI's errors: `{"detail": d}`.
abbrev pub detail_body : Json → Json
detail_body d = obj (keyed "detail" d end)

-- An entry of a validation error: a message, and what else the server says of it.
abbrev pub entry : Json × Text → Json
entry (loc, m) = obj (keyed "loc" loc (keyed "msg" (str m) end))

abbrev pub entry_text : Json × Text → Text
entry_text (_, m) = m

messages-entry :
    (es : List (Json × Text)) → messages (elems (of_list (map entry es))) ≡ map entry_text es
unfolding messages to_text
messages-entry [] = refl
messages-entry ((loc, m) ∷ es) = ap (◌∷◌ m) (messages-entry es)

-- A validation error's detail is the list of its messages.
pub detail_text-entry :
    (e : Json × Text) (es : List (Json × Text))
    → detail_text (arr (of_list (map entry (e ∷ es))))
      ≡ some (join (codes "; ") (map entry_text (e ∷ es)))
unfolding detail_text
detail_text-entry e es = rw (messages-entry (e ∷ es), detail_text)

module _ (p : Platform) where
  -- An HTTP error is shown as its status's prefix with the detail of its body.
  format_error-http_error :
      (status : ℕ) (rest : Text)
      → 100 ≤ status
      → status < 1000
      → format_error p (http_error status rest)
        ≡ with_detail (prefix_of status) (extract_detail p (trim_start rest))
  unfolding format_error
  format_error-http_error status rest h l = ground (arith, match_status-http_error status rest h l)

  -- The error that client.ts throws for a three-digit status and the body `{"detail": d}` is shown
  -- as the status's prefix with the text of `d`, whatever JSON `d` is, where JSON reads back as it
  -- was written.
  pub format_error-detail_body :
      IsFaithful p
      → (status : ℕ) (d : Json) → 100 ≤ status
      → status < 1000
      → format_error p (http_error status (p.stringify (detail_body d)))
        ≡ with_detail (prefix_of status) (detail_text d)
  unfolding extract_detail detail_of
  format_error-detail_body F status d h l =
      format_error-http_error status (p.stringify (detail_body d)) h l
      ∙ ground (arith, F.trim_start-stringify (detail_body d), F.parse-stringify (detail_body d))
