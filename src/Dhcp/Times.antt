-- ===== src/Dhcp/Times.antt =====
-- apps/ui/src/pages/dhcp/helpers.ts (`fmtExpire`, `fmtDuration`) and apps/ui/src/format.ts
-- (`formatDuration`, `formatRelativeTime`). Seconds are whole here, as the API's are, and points in time
-- are milliseconds since the epoch.
use mantis_dns.Base.{
  ℕ, ◌+◌, ◌-◌, ◌*◌, ◌/◌, ◌≤◌, Bool, true, false, ◌&&◌, ◌||◌, Option, none, some, [], ◌∷◌, ◌++◌, any,
  any-append, if◌then◌else◌, ◌==◌, ltb, ◌≡◌, refl, arith, Bool-cases, inl, inr,
}
use mantis_dns.Base.Text.{Text, codes, is_digit, is_empty, show}

-- `Math.round(s / k)` for an even k.
abbrev rounded : ℕ → ℕ → ℕ
rounded s k = (s + k / 2) / k

-- The last three tests of the three functions.
abbrev coarse : ℕ → Text
coarse s =
    if ltb s 3600
    then show (rounded s 60) ++ codes "m"
    else if ltb s 86400
    then show (rounded s 3600) ++ codes "h"
    else show (rounded s 86400) ++ codes "d"

-- `fmtDuration`.
unfoldable pub fmt_duration : ℕ → Text
fmt_duration s = if ltb s 60 then show s ++ codes "s" else coarse s

-- `formatDuration`.
unfoldable format_duration : ℕ → Text
format_duration s = coarse s

-- `fmtExpire`, over the time of its date, if it has one: `Math.round((at - now) / 1000)` is below 0 when `at` is more than half a second ago.
unfoldable fmt_expire : ℕ → Option ℕ → Text
fmt_expire now none = codes "—"
fmt_expire now (some at) =
    if ltb (at + 500) now then codes "expired" else coarse ((at + 500 - now) / 1000)

-- `/[zZ]|[+-]\d{2}:?\d{2}$/`.
abbrev is_offset : Text → Bool
is_offset (s ∷ a ∷ b ∷ c ∷ d ∷ []) =
    (s == b'+' || s == b'-') && is_digit a && is_digit b && is_digit c && is_digit d
is_offset (s ∷ a ∷ b ∷ k ∷ c ∷ d ∷ []) =
    (s == b'+' || s == b'-') && is_digit a && is_digit b && k == b':' && is_digit c && is_digit d
is_offset _ = false

abbrev ends_in_offset : Text → Bool
ends_in_offset [] = false
ends_in_offset (c ∷ s) = is_offset (c ∷ s) || ends_in_offset s

unfoldable has_tz : Text → Bool
has_tz iso = any (λ c. c == b'z' || c == b'Z') iso || ends_in_offset iso

-- `toDate`, the text that `Date` is given.
unfoldable date_text : Text → Text
unfolding has_tz
date_text iso = if has_tz iso then iso else iso ++ codes "Z"

-- `formatRelativeTime`, over `Date.parse` and the time that it is now.
unfoldable format_relative_time : (Text → ℕ) → ℕ → Option Text → Text
unfolding date_text
format_relative_time time_of now none = codes "Never"
format_relative_time time_of now (some iso) =
    let seconds = (now - time_of (date_text iso)) / 1000 in
    if is_empty iso
    then codes "Never"
    else if ltb seconds 60
    then codes "Just now"
    else if ltb seconds 3600
    then show (seconds / 60) ++ codes "m ago"
    else if ltb seconds 86400
    then show (seconds / 3600) ++ codes "h ago"
    else show (seconds / 86400) ++ codes "d ago"

-- The seconds in the unit that a letter names.
abbrev unit_seconds : ℕ → ℕ
unit_seconds c =
    if c == b's' then 1 else if c == b'm' then 60 else if c == b'h' then 3600 else 86400

-- The text shows a number of a unit, and the time that it stands for is at most half a unit off.
pub record Shows (t : Text) (seconds : ℕ) : Type 0 where
  pub amount : ℕ
  pub unit : ℕ
  pub written : t ≡ show amount ++ unit ∷ []
  pub not_short : seconds * 2 ≤ amount * unit_seconds unit * 2 + unit_seconds unit
  pub not_long : amount * unit_seconds unit * 2 ≤ seconds * 2 + unit_seconds unit

coarse-Shows : (s : ℕ) → Shows (coarse s) s
coarse-Shows s = elim (Bool-cases (ltb s 3600)) [
  | inl e ↦ rw e (record {
    amount = rounded s 60;
    unit = b'm';
    written = refl;
    not_short = omega arith;
    not_long = omega arith;
  })
  | inr e ↦ elim (Bool-cases (ltb s 86400)) [
    | inl f ↦
        rw (e, f)
          (record {
            amount = rounded s 3600;
            unit = b'h';
            written = refl;
            not_short = omega arith;
            not_long = omega arith;
          })
    | inr f ↦
        rw (e, f)
          (record {
            amount = rounded s 86400;
            unit = b'd';
            written = refl;
            not_short = omega arith;
            not_long = omega arith;
          })
  ]
]

-- A duration is shown in the unit whose number is within half a unit of it.
pub fmt_duration-Shows : (s : ℕ) → Shows (fmt_duration s) s
unfolding fmt_duration
fmt_duration-Shows s = elim (Bool-cases (ltb s 60)) [
  | inl e ↦ rw e (record {
    amount = s;
    unit = b's';
    written = refl;
    not_short = omega arith;
    not_long = omega arith;
  })
  | inr e ↦ rw e (coarse-Shows s)
]

-- From a minute on, the two functions that show a duration agree, and the time that a lease has left is
-- shown like the duration that is left, rounded to seconds.
fmt_duration-format_duration :
    (now at : ℕ)
    → 60 ≤ (at + 500 - now) / 1000
    → let left = (at + 500 - now) / 1000 in
      (fmt_expire now (some at) ≡ fmt_duration left) × (fmt_duration left ≡ format_duration left)
unfolding fmt_duration format_duration fmt_expire
fmt_duration-format_duration now at h =
    let soon : ltb (at + 500) now ≡ false = ground arith in
    let long : ltb ((at + 500 - now) / 1000) 60 ≡ false = ground arith in
    (rw (soon, long) refl, rw long refl)

-- Every text that `Date` is given names a time zone: a timestamp without one is read as UTC.
has_tz-date_text : (iso : Text) → has_tz (date_text iso) ≡ true
unfolding has_tz date_text
has_tz-date_text iso = ground (arith, any-append (λ c. c == b'z' || c == b'Z') iso (codes "Z"))
