-- ===== src/Api/Cache.antt =====
-- The query cache that the hooks of apps/ui/src/api/hooks.ts share. It is TanStack Query's, which is
-- not part of the repository: an interface with the behaviour that its documentation states, that
-- `invalidateQueries` and `removeQueries` reach every entry whose key begins with the given one.
pub mod Memory
use mantis_dns.Base.{
  Bool, true, false, not, ◌&&◌, ◌||◌, List, [], ◌∷◌, ◌≡◌, refl, ◌==◌, ==_refl, ==_iff, str_eq,
  eq_iff, arith, Option, some, none, eq_refl, if◌then◌else◌, Bool-cases, inl, inr, ◌∙◌,
}
use mantis_dns.Api.Request.{
  KeyPart, word, int, bit, undef, QueryKey, CacheOp, invalidate, remove, QuerySpec,
}

abbrev bit_eq : Bool → Bool → Bool
bit_eq true b = b
bit_eq false b = not b

-- Components are equal when they have one type and one value.
abbrev pub part_eq : KeyPart → KeyPart → Bool
part_eq (word a) (word b) = str_eq a b
part_eq (int a) (int b) = a == b
part_eq (bit a) (bit b) = bit_eq a b
part_eq undef undef = true
part_eq _ _ = false

-- The documented match: the entry's key begins with the filter's.
abbrev pub partial_match : QueryKey → QueryKey → Bool
partial_match [] key = true
partial_match (f ∷ fs) [] = false
partial_match (f ∷ fs) (k ∷ ks) = part_eq f k && partial_match fs ks

part_eq_refl : (a : KeyPart) → part_eq a a ≡ true
part_eq_refl (word a) = eq_refl a
part_eq_refl (int a) = ==_refl a
part_eq_refl (bit true) = refl
part_eq_refl (bit false) = refl
part_eq_refl undef = refl

partial_match_refl : (k : QueryKey) → partial_match k k ≡ true
partial_match_refl [] = refl
partial_match_refl (a ∷ k) = ground (arith, part_eq_refl a, partial_match_refl k)

part_eq_trans : (a b c : KeyPart) → part_eq a b ≡ true → part_eq b c ≡ true → part_eq a c ≡ true
part_eq_trans (word a) (word b) (word c) p q = ground (arith, eq_iff a b, eq_iff b c, eq_iff a c)
part_eq_trans (int a) (int b) (int c) p q = ground arith
part_eq_trans (bit a) (bit b) (bit c) p q = ground arith
part_eq_trans undef undef c p q = q
part_eq_trans a b c p q = ground arith

pub partial_match_trans :
    (a b c : QueryKey)
    → partial_match a b ≡ true
    → partial_match b c ≡ true
    → partial_match a c ≡ true
partial_match_trans [] b c p q = refl
partial_match_trans (x ∷ a) [] c p q = ground arith
partial_match_trans (x ∷ a) (y ∷ b) [] p q = ground arith
partial_match_trans (x ∷ a) (y ∷ b) (z ∷ c) p q =
    ground (arith, part_eq_trans x y z, partial_match_trans a b c)

pub record QueryClient : Type 1 where
  pub Cache : Type 0
  pub is_cached : Cache → QueryKey → Bool
  pub is_stale : Cache → QueryKey → Bool
  pub invalidate_queries : Cache → QueryKey → Cache
  pub remove_queries : Cache → QueryKey → Cache

-- What the documentation says of the four.
pub record IsLawful (qc : QueryClient) : Type 0 where
  pub is_cached-invalidate :
      (c : qc.Cache) (f k : QueryKey)
      → qc.is_cached (qc.invalidate_queries c f) k ≡ qc.is_cached c k
  pub is_stale-invalidate :
      (c : qc.Cache) (f k : QueryKey)
      → qc.is_stale (qc.invalidate_queries c f) k
        ≡ (qc.is_stale c k || (qc.is_cached c k && partial_match f k))
  pub is_cached-remove :
      (c : qc.Cache) (f k : QueryKey)
      → qc.is_cached (qc.remove_queries c f) k ≡ (qc.is_cached c k && not (partial_match f k))
  pub is_stale-remove :
      (c : qc.Cache) (f k : QueryKey)
      → qc.is_stale (qc.remove_queries c f) k ≡ (qc.is_stale c k && not (partial_match f k))

-- Whether an operation reaches an entry.
abbrev reaches : QueryKey → CacheOp → Bool
reaches k (invalidate f) = partial_match f k
reaches k (remove f) = partial_match f k

abbrev pub reached : List CacheOp → QueryKey → Bool
reached [] k = false
reached (op ∷ ops) k = reaches k op || reached ops k

module _ (qc : QueryClient) where
  apply_op : CacheOp → qc.Cache → qc.Cache
  apply_op (invalidate f) c = qc.invalidate_queries c f
  apply_op (remove f) c = qc.remove_queries c f

  -- The body of an `onSuccess`.
  unfoldable pub apply_ops : List CacheOp → qc.Cache → qc.Cache
  unfolding apply_op
  apply_ops [] c = c
  apply_ops (op ∷ ops) c = apply_ops ops (apply_op op c)

  -- An entry that a component reading through the hook would not refetch.
  abbrev pub served : qc.Cache → QueryKey → Bool
  served c k = qc.is_cached c k && not (qc.is_stale c k)

  module _ (L : IsLawful qc) where
    served-apply_op :
        (op : CacheOp) (c : qc.Cache) (k : QueryKey)
        → served (apply_op op c) k ≡ (served c k && not (reaches k op))
    unfolding apply_op
    served-apply_op (invalidate f) c k =
        ground (arith, L.is_cached-invalidate c f k, L.is_stale-invalidate c f k)
    served-apply_op (remove f) c k =
        ground (arith, L.is_cached-remove c f k, L.is_stale-remove c f k)

    -- After an `onSuccess` the entries that are still served are those it does not reach.
    pub served-apply_ops :
        (ops : List CacheOp) (c : qc.Cache) (k : QueryKey)
        → served (apply_ops ops c) k ≡ (served c k && not (reached ops k))
    unfolding apply_ops
    served-apply_ops [] c k = ground arith
    served-apply_ops (op ∷ ops) c k =
        served-apply_ops ops (apply_op op c) k ∙ ground (arith, served-apply_op op c k)
