-- ===== src/Store/Pages.antt =====
-- Pages of a query: which events each holds, and where the page bounds overflow.
use high_performance_event_s.Common.{
  ℕ, zero, suc, ◌+◌, ◌-◌, ◌*◌, ◌≤◌, ◌<◌, ◌≡◌, refl, sym, ◌∙◌, ap, Bool, List, [], ◌∷◌, length, take,
  drop, arith, ltb, leb, inl, inr, Bool-cases,
}
use high_performance_event_s.Common.Int.{ℤ, pos, negsuc}
use high_performance_event_s.Common.Outcome.{ok, err}
use high_performance_event_s.Domain.Event.{Event}
use high_performance_event_s.Store.{EventStore, query_by_time, slice_panic}
use high_performance_event_s.Store.Paging.{wrap_64, add_64, slice, page_of, query_with_pagination}

wrap_64_small : (x : ℕ) → x < 9223372036854775808 → wrap_64 x ≡ pos x
unfolding wrap_64
wrap_64_small x h = ground arith

drop_all : (n : ℕ) (xs : List Event) → length xs ≤ n → drop n xs ≡ []
drop_all zero [] h = refl
drop_all zero (x ∷ xs) h = absurd (omega arith)
drop_all (suc n) [] h = refl
drop_all (suc n) (x ∷ xs) h = drop_all n xs (omega arith)

take_all : (n : ℕ) (xs : List Event) → length xs ≤ n → take n xs ≡ xs
take_all zero [] h = refl
take_all zero (x ∷ xs) h = absurd (omega arith)
take_all (suc n) [] h = refl
take_all (suc n) (x ∷ xs) h = ap (λ l. x ∷ l) (take_all n xs (omega arith))

length-drop : (n : ℕ) (xs : List Event) → length (drop n xs) ≡ length xs - n
length-drop zero xs = omega arith
length-drop (suc n) [] = omega arith
length-drop (suc n) (x ∷ xs) = omega (arith, length-drop n xs)

take-clip : (n m : ℕ) (xs : List Event) → n ≤ m → length xs ≤ n → take n xs ≡ take m xs
take-clip n m xs h k = take_all n xs k ∙ sym (take_all m xs (omega arith))

add_64_small : (m n : ℕ) → m + n < 9223372036854775808 → add_64 (pos m) n ≡ pos (m + n)
unfolding add_64
add_64_small m n h = wrap_64_small (m + n) h

slice_in_bounds :
    (lo hi : ℕ) (xs : List Event)
    → lo ≤ hi
    → hi ≤ length xs
    → slice (pos lo) (pos hi) xs ≡ ok (take (hi - lo) (drop lo xs))
unfolding slice
slice_in_bounds lo hi xs h k = ground arith

-- The page, where no bound overflows.
page_of_small :
    (size first n : ℕ) (xs : List Event)
    → (n - 1) * size ≡ first
    → first + size < 9223372036854775808
    → page_of size n xs ≡ ok (take size (drop first xs), length xs)
unfolding page_of
page_of_small size first n xs e h =
    rw (e, wrap_64_small first (omega arith), add_64_small first size h)
      (elim (Bool-cases (leb (length xs) first)) [
        | inl past ↦
            ground (arith, drop_all first xs (ground (arith, past)), take_all size [] (omega arith))
        | inr inside ↦ elim (Bool-cases (ltb (length xs) (first + size))) [
          | inl cut ↦ ground (
            arith,
            slice_in_bounds first (length xs) xs,
            take-clip (length xs - first) size (drop first xs),
            length-drop first xs,
          )
          | inr whole ↦ ground (arith, slice_in_bounds first (first + size) xs)
        ]
      ])

wrap_64_large :
    (x : ℕ)
    → 9223372036854775808 ≤ x
    → x < 18446744073709551616
    → wrap_64 x ≡ negsuc (18446744073709551615 - x)
unfolding wrap_64
wrap_64_large x h k = ground arith

slice_negative : (n : ℕ) (hi : ℤ) (xs : List Event) → slice (negsuc n) hi xs ≡ err slice_panic
unfolding slice
slice_negative n hi xs = ground arith

page_of_wrapped :
    (size first n : ℕ) (xs : List Event)
    → (n - 1) * size ≡ first
    → 9223372036854775808 ≤ first
    → first < 18446744073709551616
    → page_of size n xs ≡ err slice_panic
unfolding page_of
page_of_wrapped size first n xs e low high =
    rw (e, wrap_64_large first low high, slice_negative) (ground arith)

module _ (start end : ℤ) (accept : Event → Bool) (s : EventStore) {all_events : List Event}
    (found : query_by_time start end accept s ≡ ok all_events) where
  -- Where the page bounds fit into 64 bits, page `k + 1` of a successful query holds the events from
  -- number `k * size` on, `size` of them or as many as there are, and comes with the total number.
  pub query_with_pagination-page :
      (k size : ℕ)
      → 0 < size
      → k * size + size < 9223372036854775808
      → query_with_pagination start end accept (pos size) (pos (suc k)) s
        ≡ ok (take size (drop (k * size) all_events), length all_events)
  unfolding query_with_pagination
  query_with_pagination-page k size h small =
      let e : (suc k - 1) * size ≡ k * size = ap (λ (t : ℕ). t * size) (omega arith) in
      ground (arith, found, page_of_small size (k * size) (suc k) all_events e small)

  -- Where the first event of the page would have a number from 2 ^ 63 up to 2 ^ 64, the product wraps
  -- around to a negative number, and the slice expression panics.
  pub query_with_pagination_panics :
      (k size : ℕ)
      → 0 < size
      → 9223372036854775808 ≤ k * size
      → k * size < 18446744073709551616
      → query_with_pagination start end accept (pos size) (pos (suc k)) s ≡ err slice_panic
  unfolding query_with_pagination
  query_with_pagination_panics k size h low high =
      let e : (suc k - 1) * size ≡ k * size = ap (λ (t : ℕ). t * size) (omega arith) in
      ground (arith, found, page_of_wrapped size (k * size) (suc k) all_events e low high)
