-- ===== src/Base/Json/Codec.antt =====
-- A text for every JSON value, and its reader: a prefix code, which shows that a `stringify` with the
-- inverse that the theorems ask for exists.
use mantis_dns.Base.{
  ℕ, zero, suc, ◌+◌, ◌≤◌, true, false, Option, none, some, [], ◌∷◌, ◌++◌, length, length-append,
  ◌≡◌, refl, ap, arith,
}
use mantis_dns.Base.Text.{Text}
use mantis_dns.Base.Json.{
  Json, null, bool, num, str, arr, obj, Elems, nil, cons, Members, end, member,
}

abbrev write_text : Text → Text → Text
write_text s rest = length s ∷ (s ++ rest)

-- A value, written in front of a text.
unfoldable mutual
  pub write : Json → Text → Text
  write null rest = 0 ∷ rest
  write (bool true) rest = 1 ∷ rest
  write (bool false) rest = 2 ∷ rest
  write (num n) rest = 3 ∷ n ∷ rest
  write (str s) rest = 4 ∷ write_text s rest
  write (arr vs) rest = 5 ∷ write_elems vs rest
  write (obj ms) rest = 6 ∷ write_members ms rest

  write_elems : Elems → Text → Text
  write_elems nil rest = 0 ∷ rest
  write_elems (cons v vs) rest = 1 ∷ write v (write_elems vs rest)

  write_members : Members → Text → Text
  write_members end rest = 0 ∷ rest
  write_members (member k v ms) rest = 1 ∷ write_text k (write v (write_members ms rest))

-- The first n code units and the others.
abbrev take_text : ℕ → Text → Option (Text × Text)
take_text zero s = some ([], s)
take_text (suc n) [] = none
take_text (suc n) (c ∷ s) = elim (take_text n s) [
  | none ↦ none
  | some (t, rest) ↦ some (c ∷ t, rest)
]

take_text-append : (s rest : Text) → take_text (length s) (s ++ rest) ≡ some (s, rest)
take_text-append [] rest = refl
take_text-append (c ∷ s) rest = rw (take_text-append s rest) refl

abbrev with_rest : {A B : Type 0} → (A → B) → Option (A × Text) → Option (B × Text)
with_rest f none = none
with_rest f (some (a, rest)) = some (f a, rest)

abbrev and_then :
    {A B : Type 0} → Option (A × Text) → (A → Text → Option (B × Text)) → Option (B × Text)
and_then none f = none
and_then (some (a, rest)) f = f a rest

abbrev read_number : Text → Option (ℕ × Text)
read_number [] = none
read_number (n ∷ rest) = some (n, rest)

abbrev read_text : Text → Option (Text × Text)
read_text [] = none
read_text (n ∷ s) = take_text n s

pub data Tag : Type 0 where
  is_null is_true is_false is_num is_str is_arr is_obj : Tag

abbrev tag : ℕ → Tag
tag zero = is_null
tag (suc zero) = is_true
tag (suc (suc zero)) = is_false
tag (suc (suc (suc zero))) = is_num
tag (suc (suc (suc (suc zero)))) = is_str
tag (suc (suc (suc (suc (suc zero))))) = is_arr
tag _ = is_obj

-- The reader, with room for the value.
unfoldable mutual
  read : ℕ → Text → Option (Json × Text)
  read zero s = none
  read (suc fuel) [] = none
  read (suc fuel) (c ∷ s) = elim (tag c) [
    | is_null ↦ some (null, s)
    | is_true ↦ some (bool true, s)
    | is_false ↦ some (bool false, s)
    | is_num ↦ with_rest num (read_number s)
    | is_str ↦ with_rest str (read_text s)
    | is_arr ↦ with_rest arr (read_elems fuel s)
    | is_obj ↦ with_rest obj (read_members fuel s)
  ]

  read_elems : ℕ → Text → Option (Elems × Text)
  read_elems zero s = none
  read_elems (suc fuel) [] = none
  read_elems (suc fuel) (zero ∷ s) = some (nil, s)
  read_elems (suc fuel) (suc c ∷ s) =
      and_then (read fuel s) (λ v rest. with_rest (cons v) (read_elems fuel rest))

  read_members : ℕ → Text → Option (Members × Text)
  read_members zero s = none
  read_members (suc fuel) [] = none
  read_members (suc fuel) (zero ∷ s) = some (end, s)
  read_members (suc fuel) (suc c ∷ s) = and_then (read_text s) (λ k after.
      and_then (read fuel after) (λ v rest. with_rest (member k v) (read_members fuel rest)))

-- The room that a value takes.
unfoldable mutual
  size : Json → ℕ
  size (arr vs) = suc (size_elems vs)
  size (obj ms) = suc (size_members ms)
  size _ = 1

  size_elems : Elems → ℕ
  size_elems nil = 1
  size_elems (cons v vs) = suc (size v + size_elems vs)

  size_members : Members → ℕ
  size_members end = 1
  size_members (member k v ms) = suc (size v + size_members ms)

mutual
  unfolding read write size

  read-write :
      (fuel : ℕ) (v : Json) (rest : Text)
      → size v ≤ fuel
      → read fuel (write v rest) ≡ some (v, rest)
  read-write zero null rest h = ground arith
  read-write zero (bool b) rest h = ground arith
  read-write zero (num n) rest h = ground arith
  read-write zero (str s) rest h = ground arith
  read-write zero (arr vs) rest h = ground arith
  read-write zero (obj ms) rest h = ground arith
  read-write (suc fuel) null rest h = refl
  read-write (suc fuel) (bool true) rest h = refl
  read-write (suc fuel) (bool false) rest h = refl
  read-write (suc fuel) (num n) rest h = refl
  read-write (suc fuel) (str s) rest h = rw (take_text-append s rest) refl
  read-write (suc fuel) (arr vs) rest h =
      rw (read_elems-write_elems fuel vs rest (omega arith)) refl
  read-write (suc fuel) (obj ms) rest h =
      rw (read_members-write_members fuel ms rest (omega arith)) refl

  read_elems-write_elems :
      (fuel : ℕ) (vs : Elems) (rest : Text)
      → size_elems vs ≤ fuel
      → read_elems fuel (write_elems vs rest) ≡ some (vs, rest)
  read_elems-write_elems zero nil rest h = ground arith
  read_elems-write_elems zero (cons v vs) rest h = ground arith
  read_elems-write_elems (suc fuel) nil rest h = refl
  read_elems-write_elems (suc fuel) (cons v vs) rest h =
      rw
        (
          read-write fuel v (write_elems vs rest) (omega arith),
          read_elems-write_elems fuel vs rest (omega arith),
        )
        refl

  read_members-write_members :
      (fuel : ℕ) (ms : Members) (rest : Text)
      → size_members ms ≤ fuel
      → read_members fuel (write_members ms rest) ≡ some (ms, rest)
  read_members-write_members zero end rest h = ground arith
  read_members-write_members zero (member k v ms) rest h = ground arith
  read_members-write_members (suc fuel) end rest h = refl
  read_members-write_members (suc fuel) (member k v ms) rest h =
      rw
        (
          take_text-append k (write v (write_members ms rest)),
          read-write fuel v (write_members ms rest) (omega arith),
          read_members-write_members fuel ms rest (omega arith),
        )
        refl

mutual
  unfolding write size

  length-write : (v : Json) (rest : Text) → size v + length rest ≤ length (write v rest)
  length-write null rest = omega arith
  length-write (bool true) rest = omega arith
  length-write (bool false) rest = omega arith
  length-write (num n) rest = omega arith
  length-write (str s) rest = omega (arith, length-append s rest)
  length-write (arr vs) rest = omega (arith, length-write_elems vs rest)
  length-write (obj ms) rest = omega (arith, length-write_members ms rest)

  length-write_elems :
      (vs : Elems) (rest : Text) → size_elems vs + length rest ≤ length (write_elems vs rest)
  length-write_elems nil rest = omega arith
  length-write_elems (cons v vs) rest =
      omega (arith, length-write v (write_elems vs rest), length-write_elems vs rest)

  length-write_members :
      (ms : Members) (rest : Text) → size_members ms + length rest ≤ length (write_members ms rest)
  length-write_members end rest = omega arith
  length-write_members (member k v ms) rest = omega (
    arith,
    length-append k (write v (write_members ms rest)),
    length-write v (write_members ms rest),
    length-write_members ms rest,
  )

-- The whole text of a value, and its reader.
abbrev pub json_text : Json → Text
json_text v = write v []

abbrev whole : Option (Json × Text) → Option Json
whole (some (v, [])) = some v
whole _ = none

unfoldable pub read_json : Text → Option Json
unfolding read
read_json s = whole (read (length s) s)

-- What is written reads back.
pub read_json-json_text : (v : Json) → read_json (json_text v) ≡ some v
unfolding read_json write
read_json-json_text v =
    ap whole (read-write (length (write v [])) v [] (omega (arith, length-write v [])))
