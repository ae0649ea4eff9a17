-- ===== src/Store/Minutes.antt =====
-- Minutes grow with time, and the index by minutes.
use high_performance_event_s.Common.{◌≡◌, [], ◌∷◌, ◌++◌, arith, if◌then◌else◌}
use high_performance_event_s.Common.Int.{ℤ, ◌≤ℤ◌, ltb_ℤ, eqb_ℤ, eq_of_parts, div_floor, div_trunc}
use high_performance_event_s.Domain.Event.{Event}
use high_performance_event_s.Store.{Buckets, minute_of, bucket_at, append_at, drop_below}

div_floor_mono : (a b : ℤ) → a ≤ℤ b → div_floor a 1_000_000_000 ≤ℤ div_floor b 1_000_000_000
div_floor_mono a b h = ground arith

div_trunc_mono : (a b : ℤ) → a ≤ℤ b → div_trunc a 60 ≤ℤ div_trunc b 60
div_trunc_mono a b h = ground arith

pub minute_of_mono : (a b : ℤ) → a ≤ℤ b → minute_of a ≤ℤ minute_of b
unfolding minute_of
minute_of_mono a b h =
    div_trunc_mono (div_floor a 1_000_000_000) (div_floor b 1_000_000_000) (div_floor_mono a b h)

pub bucket_at-append_at :
    (b c : ℤ) (e : Event) (m : Buckets)
    → bucket_at b (append_at c e m) ≡ (if eqb_ℤ c b then bucket_at b m ++ e ∷ [] else bucket_at b m)
unfolding bucket_at append_at
bucket_at-append_at b c e [] = ground arith
bucket_at-append_at b c e ((k, es) ∷ m) =
    ground (arith, bucket_at-append_at b c e m, eq_of_parts k c, eq_of_parts c b, eq_of_parts k b)

pub bucket_at-drop_below :
    (b cut : ℤ) (m : Buckets)
    → bucket_at b (drop_below cut m) ≡ (if ltb_ℤ b cut then [] else bucket_at b m)
unfolding bucket_at drop_below
bucket_at-drop_below b cut [] = ground arith
bucket_at-drop_below b cut ((k, es) ∷ m) =
    ground (arith, bucket_at-drop_below b cut m, eq_of_parts k b)
