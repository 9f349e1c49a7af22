-- ===== src/Analytics/Laws.antt =====
-- The domains that the page shows are those that are blocked most.
use mathlib.Core.List.{Permᴰ}
use mantis_dns.Base.Sets.Permuted.{length-Permᴰ}
use mantis_dns.Base.{
  refl, ◌∙◌, ap, leb, if◌then◌else◌, ◌&&◌, Bool, true, List, ◌++◌, ◌≡◌, arith, all, subst, sym,
  length, ℕ, zero, suc, [], ◌∷◌,
}
use mantis_dns.Base.Sort.{sort_by, sort_by-Permᴰ, IsOrder}
use mantis_dns.Base.Sort.Top.{
  take_first, drop_first, take_first-drop_first, is_sorted, is_sorted-sort_by, take_first-top,
  is_sorted-take_first,
}
use mantis_dns.Analytics.{TopDomain, more_first, top_domains}

more_first-IsOrder : IsOrder more_first
more_first-IsOrder = record {
  total = λ x y h. ground arith;
  transitive = λ x y z h k. ground arith;
}

length-take_first :
    (n : ℕ) (xs : List TopDomain)
    → length (take_first n xs) ≡ (if leb n (length xs) then n else length xs)
length-take_first zero xs = ground arith
length-take_first (suc n) [] = ground arith
length-take_first (suc n) (x ∷ xs) = ground (arith, length-take_first n xs)

-- The counts do not grow.
abbrev pub descending : List TopDomain → Bool
descending [] = true
descending (d ∷ ds) = all (λ e. leb e.count d.count) ds && descending ds

descending-is_sorted : (ds : List TopDomain) → is_sorted more_first ds ≡ true → descending ds ≡ true
descending-is_sorted [] h = refl
descending-is_sorted (d ∷ ds) h = ground (arith, descending-is_sorted ds)

-- The others, none of which has a larger count than one of these.
pub record IsTop (top domains : List TopDomain) : Type 0 where
  pub others : List TopDomain
  pub permuted : Permᴰ (top ++ others) domains
  pub largest : all (λ d. all (λ e. leb e.count d.count) others) top ≡ true

-- Of the domains of an answer ten are shown, or all of them if they are fewer, with counts that do not
-- grow; and there are others that with the shown ones are a permutation of the answer, and of which none
-- has a larger count than one that is shown.
pub top_domains-IsTop :
    (domains : List TopDomain)
    → IsTop (top_domains domains) domains
      × (length (top_domains domains) ≡ (if leb 10 (length domains) then 10 else length domains))
      × (descending (top_domains domains) ≡ true)
unfolding top_domains
top_domains-IsTop domains =
    let sorted = sort_by more_first domains in
    let s = is_sorted-sort_by more_first more_first-IsOrder domains in
    (
      record {
        others = drop_first 10 sorted;
        permuted =
            subst (λ (l : List TopDomain). Permᴰ l domains) (sym (take_first-drop_first 10 sorted))
              (sort_by-Permᴰ more_first domains);
        largest = take_first-top more_first 10 sorted s;
      },
      length-take_first 10 sorted
          ∙ ap (λ n. if leb 10 n then 10 else n)
              (length-Permᴰ _ _ (sort_by-Permᴰ more_first domains)),
      descending-is_sorted (take_first 10 sorted) (is_sorted-take_first more_first 10 sorted s),
    )
