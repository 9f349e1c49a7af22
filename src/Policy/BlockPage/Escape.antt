-- ===== src/Policy/BlockPage/Escape.antt =====
-- apps/ui/src/pages/BlockPageCard.tsx: escapeHtml.
use mantis_dns.Base.{ℕ, [], ◌∷◌, ◌++◌, if◌then◌else◌, ◌==◌, ◌≡◌, refl, ap, Bool-cases, inl, inr}
use mantis_dns.Base.Text.{Text, codes}

-- `s.replace(/c/g, replacement)`.
abbrev pub replace_all : ℕ → Text → Text → Text
replace_all c replacement [] = []
replace_all c replacement (d ∷ s) =
    let rest = replace_all c replacement s in if d == c then replacement ++ rest else d ∷ rest

unfoldable pub escape_html : Text → Text
escape_html s = replace_all b'\'' (codes "&#39;") (
    replace_all b'"' (codes "&quot;") (
      replace_all b'>' (codes "&gt;")
        (replace_all b'<' (codes "&lt;") (replace_all b'&' (codes "&amp;") s))))

-- One code unit as HTML text.
abbrev pub escaped : ℕ → Text
escaped c =
    if c == b'&'
    then codes "&amp;"
    else if c == b'<'
    then codes "&lt;"
    else if c == b'>'
    then codes "&gt;"
    else if c == b'"'
    then codes "&quot;"
    else if c == b'\''
    then codes "&#39;"
    else c ∷ []

abbrev pub escape_each : Text → Text
escape_each [] = []
escape_each (c ∷ s) = escaped c ++ escape_each s

-- The replacements, one after the other, escape each code unit on its own: no later one touches what
-- an earlier one has written.
pub escape_html-escape_each : (s : Text) → escape_html s ≡ escape_each s
unfolding escape_html
escape_html-escape_each [] = refl
escape_html-escape_each (c ∷ s) =
    let rest = escape_html-escape_each s in
    elim (Bool-cases (c == b'&')) [
      | inl e ↦ rw e (ap (λ (t : Text). codes "&amp;" ++ t) rest)
      | inr amp ↦ elim (Bool-cases (c == b'<')) [
        | inl e ↦ rw (amp, e) (ap (λ (t : Text). codes "&lt;" ++ t) rest)
        | inr lt ↦ elim (Bool-cases (c == b'>')) [
          | inl e ↦ rw (amp, lt, e) (ap (λ (t : Text). codes "&gt;" ++ t) rest)
          | inr gt ↦ elim (Bool-cases (c == b'"')) [
            | inl e ↦ rw (amp, lt, gt, e) (ap (λ (t : Text). codes "&quot;" ++ t) rest)
            | inr quot ↦ elim (Bool-cases (c == b'\'')) [
              | inl e ↦ rw (amp, lt, gt, quot, e) (ap (λ (t : Text). codes "&#39;" ++ t) rest)
              | inr apos ↦ rw (amp, lt, gt, quot, apos) (ap (◌∷◌ c) rest)
            ]
          ]
        ]
      ]
    ]
