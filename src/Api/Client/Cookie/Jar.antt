-- ===== src/Api/Client/Cookie/Jar.antt =====
-- `readCookie` against a jar of cookies, as the browser writes one into `document.cookie`.
use mantis_dns.Base.{
  ℕ, Bool, true, not, Option, none, some, List, [], ◌∷◌, ◌++◌, if◌then◌else◌, ◌==◌, ◌≡◌, refl,
  arith, all, append_assoc,
}
use mantis_dns.Base.Text.{Text, text_eq}
use mantis_dns.Api.Client.Cookie.{strip_prefix, up_to_semicolon, match_later, match_cookie}

abbrev Jar : Type 0
Jar = List (Text × Text)

abbrev lacks : ℕ → Text → Bool
lacks c = all λ x. not (x == c)

later : Jar → Text
later [] = []
later ((n, v) ∷ jar) = b';' ∷ b' ' ∷ (n ++ b'=' ∷ (v ++ later jar))

-- `a=1; b=2; c=3`.
pub document_cookie : Jar → Text
unfolding later
document_cookie [] = []
document_cookie ((n, v) ∷ jar) = n ++ b'=' ∷ (v ++ later jar)

unfoldable pub cookie_of : Text → Jar → Option Text
cookie_of name [] = none
cookie_of name ((n, v) ∷ jar) = if text_eq n name then some v else cookie_of name jar

-- A name holds no `=` and no `;`, a value no `;`: RFC 6265 excludes them.
abbrev pub IsJar : Jar → Type 0
IsJar [] = Unit {0}
IsJar ((n, v) ∷ jar) =
    (lacks b'=' n ≡ true) × (lacks b';' n ≡ true) × (lacks b';' v ≡ true) × IsJar jar

strip_prefix-name :
    (name n rest : Text)
    → lacks b'=' name ≡ true
    → lacks b'=' n ≡ true
    → strip_prefix (name ++ b'=' ∷ []) (n ++ b'=' ∷ rest)
      ≡ (if text_eq n name then some rest else none)
unfolding strip_prefix
strip_prefix-name [] [] rest h k = refl
strip_prefix-name [] (c ∷ n) rest h k = ground arith
strip_prefix-name (a ∷ name) [] rest h k = ground arith
strip_prefix-name (a ∷ name) (c ∷ n) rest h k = ground (arith, strip_prefix-name name n rest)

up_to_semicolon-value :
    (v : Text) (jar : Jar) → lacks b';' v ≡ true → up_to_semicolon (v ++ later jar) ≡ v
unfolding up_to_semicolon later
up_to_semicolon-value [] [] h = refl
up_to_semicolon-value [] (e ∷ jar) h = refl
up_to_semicolon-value (c ∷ v) jar h = ground (arith, up_to_semicolon-value v jar)

-- A search behind `; ` passes over what has no semicolon.
match_later_skip :
    (name u rest : Text)
    → lacks b';' u ≡ true
    → match_later name (u ++ rest) ≡ match_later name rest
unfolding match_later strip_prefix
match_later_skip name [] rest h = refl
match_later_skip name (c ∷ u) rest h = ground (arith, match_later_skip name u rest)

lacks-entry :
    (n v : Text) → lacks b';' n ≡ true → lacks b';' v ≡ true → lacks b';' (n ++ b'=' ∷ v) ≡ true
lacks-entry [] v h k = k
lacks-entry (c ∷ n) v h k = ground (arith, lacks-entry n v)

-- Over a whole entry.
match_later-entry :
    (name n v rest : Text)
    → lacks b';' n ≡ true
    → lacks b';' v ≡ true
    → match_later name (n ++ b'=' ∷ (v ++ rest)) ≡ match_later name rest
match_later-entry name n v rest h k =
    rw (← append_assoc n (b'=' ∷ v) rest)
      (match_later_skip name (n ++ b'=' ∷ v) rest (lacks-entry n v h k))

match_later-later :
    (name : Text) (jar : Jar)
    → lacks b'=' name ≡ true
    → IsJar jar
    → match_later name (later jar) ≡ cookie_of name jar
unfolding match_later later cookie_of strip_prefix
match_later-later name [] h w = refl
match_later-later name ((n, v) ∷ jar) h (eqs, semis, vals, w) = ground (
  arith,
  strip_prefix-name name n (v ++ later jar) h eqs,
  up_to_semicolon-value v jar vals,
  match_later-entry name n v (later jar) semis vals,
  match_later-later name jar h w,
)

-- `readCookie` finds the first cookie of the name, whatever the jar holds beside it: another cookie
-- whose name ends or begins with the name is not taken for it. Names hold no `=` and no `;`, and
-- values no `;`.
pub match_cookie-document_cookie :
    (name : Text) (jar : Jar)
    → lacks b'=' name ≡ true
    → IsJar jar
    → match_cookie name (document_cookie jar) ≡ cookie_of name jar
unfolding match_cookie document_cookie cookie_of
match_cookie-document_cookie [] [] h w = refl
match_cookie-document_cookie (c ∷ name) [] h w = refl
match_cookie-document_cookie name ((n, v) ∷ jar) h (eqs, semis, vals, w) = ground (
  arith,
  strip_prefix-name name n (v ++ later jar) h eqs,
  up_to_semicolon-value v jar vals,
  match_later-entry name n v (later jar) semis vals,
  match_later-later name jar h w,
)
