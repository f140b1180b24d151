-- ===== src/Providers/RateLimit/Window.antt =====
-- The promise of the limiter's docstring: the acquisitions in any interval as long as the window.
use luicode.Base.{
  ℕ, ◌+◌, ◌≤◌, ◌<◌, true, false, ◌&&◌, List, [], ◌∷◌, ◌++◌, length, ltb, leb, if◌then◌else◌, arith,
  ◌≡◌, refl,
}
use luicode.Providers.RateLimit.{
  StrictSlidingWindowLimiter, Reading, Turn, returns, sleeps, prune, acquire,
}

abbrev inside : ℕ → ℕ → ℕ → ℕ
inside window t s = if leb t s && ltb s (t + window) then 1 else 0

-- How many of the times lie in the interval of the window's length that begins at `t`.
unfoldable pub count_within : ℕ → ℕ → List ℕ → ℕ
count_within window t [] = 0
count_within window t (s ∷ ss) = inside window t s + count_within window t ss

abbrev stamp_of : ℕ → Turn → List ℕ
stamp_of s (returns true) = s ∷ []
stamp_of s (returns false) = []
stamp_of s (sleeps d) = []

-- The times of the acquisitions that a sequence of turns comes to, of whichever callers.
unfoldable pub acquisitions : StrictSlidingWindowLimiter → List Reading → List ℕ
acquisitions l [] = []
acquisitions l (r ∷ rs) = stamp_of r.stamp (acquire l r).1 ++ acquisitions (acquire l r).0 rs

-- The clock does not go back.
abbrev pub IsMonotone : ℕ → List Reading → Type 0
IsMonotone clock [] = Unit {0}
IsMonotone clock (r ∷ rs) = (clock ≤ r.now) × (r.now ≤ r.stamp) × IsMonotone r.stamp rs

count-append :
    (window t : ℕ) (xs ys : List ℕ)
    → count_within window t (xs ++ ys) ≡ count_within window t xs + count_within window t ys
unfolding count_within
count-append window t [] ys = omega arith
count-append window t (x ∷ xs) ys = omega (arith, count-append window t xs ys)

count-le-length : (window t : ℕ) (xs : List ℕ) → count_within window t xs ≤ length xs
unfolding count_within
count-le-length window t [] = omega arith
count-le-length window t (x ∷ xs) = ground (arith, count-le-length window t xs)

-- What is dropped lies in no interval that is still open.
count-prune :
    (window now t : ℕ) (xs : List ℕ)
    → now < t + window
    → count_within window t (prune window now xs) ≡ count_within window t xs
unfolding count_within prune
count-prune window now t [] h = refl
count-prune window now t (x ∷ xs) h = ground (arith, count-prune window now t xs h)

-- What a turn does to the number of acquisitions in the interval from `t`, of which `seen` are over.
turn_counts :
    (l : StrictSlidingWindowLimiter) (r : Reading) (t seen limit window : ℕ)
    → l.rate_limit ≡ limit
    → l.rate_window ≡ window
    → r.now ≤ r.stamp
    → seen ≤ limit
    → (r.now < t + window → seen ≡ count_within window t l.times)
    → (seen + count_within window t (stamp_of r.stamp (acquire l r).1) ≤ limit)
      × (r.stamp < t + window
          → seen + count_within window t (stamp_of r.stamp (acquire l r).1)
            ≡ count_within window t (acquire l r).0.times)
      × ((acquire l r).0.rate_limit ≡ limit)
      × ((acquire l r).0.rate_window ≡ window)
unfolding acquire count_within
turn_counts l r t seen limit window a b h k e =
    let times = prune l.rate_window r.now l.times in
    ground (
      arith,
      count-prune l.rate_window r.now t l.times,
      count-le-length l.rate_window t times,
      count-append l.rate_window t times (r.stamp ∷ []),
    )

acquisitions_bound :
    (limit window : ℕ) (rs : List Reading) (l : StrictSlidingWindowLimiter) (clock t seen : ℕ)
    → l.rate_limit ≡ limit
    → l.rate_window ≡ window
    → IsMonotone clock rs
    → seen ≤ limit
    → (clock < t + window → seen ≡ count_within window t l.times)
    → seen + count_within window t (acquisitions l rs) ≤ limit
unfolding acquisitions count_within
acquisitions_bound limit window [] l clock t seen a b m k e = omega arith
acquisitions_bound limit window (r ∷ rs) l clock t seen a b m k e =
    let kept = turn_counts l r t seen limit window a b m.1 k (λ h. e (omega (arith, m.0))) in
    let here = stamp_of r.stamp (acquire l r).1 in
    let so_far = seen + count_within window t here in
    let rest =
      acquisitions_bound limit window rs (acquire l r).0 r.stamp t so_far kept.2 kept.3 m.2 kept.0
        kept.1 in
    omega (arith, rest, count-append window t here (acquisitions (acquire l r).0 rs))

-- At most `rate_limit` acquisitions in any interval of length `rate_window`: whoever acquires, in
-- whatever order, from an empty limiter and by a clock that does not go back, the acquisitions
-- within the window's length from any time are at most the limit.
pub acquisitions-le-rate_limit :
    (limit window t : ℕ) (rs : List Reading)
    → IsMonotone 0 rs
    → count_within window t
        (acquisitions (record { rate_limit = limit; rate_window = window; times = [] }) rs)
      ≤ limit
unfolding count_within
acquisitions-le-rate_limit limit window t rs m =
    let l : StrictSlidingWindowLimiter = record {
      rate_limit = limit;
      rate_window = window;
      times = [];
    } in
    let bound = acquisitions_bound limit window rs l 0 t 0 refl refl m (omega arith) (λ h. refl) in
    omega (arith, bound)
