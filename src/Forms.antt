-- ===== src/Forms.antt =====
-- The forms of the pages: `useForm` of Mantine, whose `initialValues` are read when the component is
-- mounted and at no later rendering, and the modals that edit one entity of a list.
pub mod EditModal
pub mod CrudTab
pub mod Optional
use mantis_dns.Base.{
  ℕ, String, str_eq, Bool, true, false, Option, none, some, List, [], if◌then◌else◌,
}
use mantis_dns.Base.Json.{Json, null, num, str}

-- The value of a number input: what the program put there, or what the input reports, which is a
-- number or, when it has been emptied, the empty string.
pub data NumberField : Type 0 where
  absent : NumberField
  number : ℕ → NumberField
  emptied : NumberField

-- The value as JSON, where `v ?? null` leaves the empty string as it is.
abbrev pub number_json : NumberField → Json
number_json absent = null
number_json (number n) = num n
number_json emptied = str []

abbrev pub number_of : Option ℕ → NumberField
number_of none = absent
number_of (some n) = number n

-- A mounted form.
pub record Form (V : Type 0) : Type 0 where
  pub initial : V
  pub values : V

abbrev pub mounted : {V : Type 0} → V → Form V
mounted v = record { initial = v; values = v }

-- `form.reset()`.
abbrev pub reset : {V : Type 0} → Form V → Form V
reset f = record f { values = f.initial }
