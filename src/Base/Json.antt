-- ===== src/Base/Json.antt =====
-- JSON values: what `JSON.parse` returns and what request bodies are made of.
pub mod Codec
use Prim.Native.Nat.{ℕ}
use Prim.Native.String.{String}
use mathlib.Core.Bool.{Bool}
use mathlib.Core.List.{List, [], ◌∷◌}
use mathlib.Core.Option.{Option, none, some}
use mantis_dns.Base.Tests.{if◌then◌else◌}
use mantis_dns.Base.Text.{Text, codes, text_eq}

mutual
  pub data Json : Type 0 where
    null : Json
    bool : Bool → Json
    num : ℕ → Json
    str : Text → Json
    arr : Elems → Json
    obj : Members → Json

  pub data Elems : Type 0 where
    nil : Elems
    cons : Json → Elems → Elems

  pub data Members : Type 0 where
    end : Members
    member : Text → Json → Members → Members

abbrev pub elems : Elems → List Json
elems nil = []
elems (cons v vs) = v ∷ elems vs

abbrev pub of_list : List Json → Elems
of_list [] = nil
of_list (v ∷ vs) = cons v (of_list vs)

-- The value under a key, if the object has it. Keys are distinct after `JSON.parse`.
abbrev pub field : String → Members → Option Json
field k end = none
field k (member j v ms) = if text_eq j (codes k) then some v else field k ms

-- `{ key: value, ... }` with a key of the source.
abbrev pub keyed : String → Json → Members → Members
keyed k v ms = member (codes k) v ms
