-- ===== src/Streaming/Ledger/Stack.antt =====
-- The stack of open blocks, and the checker's answer to a list of events.
use luicode.Base.{
  ℕ, nat_eq, nat_beq_iff, Bool, List, [], ◌∷◌, ◌++◌, ◌≡◌, refl, arith, without, Distinct,
  without-absent, Option, none, some, String,
}
use luicode.Streaming.Events.{SseEvent}
use luicode.Streaming.Ledger.{remove_lowest, drop_open}
use luicode.Streaming.Contract.{Contract, check_event, check_events, and_check}

remove_lowest-without : (i : ℕ) (xs : List ℕ) → Distinct xs → remove_lowest i xs ≡ without i xs
unfolding remove_lowest without
remove_lowest-without i [] d = refl
remove_lowest-without i (x ∷ xs) d =
    ground (arith, remove_lowest-without i xs d.1, without-absent i xs, nat_beq_iff x i)

-- Without repetitions, both ways to close a block take it off the stack.
pub drop_open-without : (i : ℕ) (xs : List ℕ) → Distinct xs → drop_open i xs ≡ without i xs
unfolding drop_open without
drop_open-without i [] d = refl
drop_open-without i (x ∷ xs) d =
    ground (arith, remove_lowest-without i (x ∷ xs) d, without-absent i xs, nat_beq_iff x i)

pub check_events-append :
    (blank : String → Bool) (c : Contract) (xs ys : List SseEvent)
    → check_events blank c (xs ++ ys)
      ≡ and_check blank (check_events blank c xs) (λ c'. check_events blank c' ys)
unfolding check_events
check_events-append blank c [] ys = refl
check_events-append blank c (x ∷ xs) ys =
    check_rest blank (check_event blank c x) xs ys (λ c'. check_events-append blank c' xs ys)
  where
    check_rest :
        (blank : String → Bool) (o : Option Contract) (xs ys : List SseEvent)
        → ((c : Contract)
            → check_events blank c (xs ++ ys)
              ≡ and_check blank (check_events blank c xs) (λ c'. check_events blank c' ys))
        → and_check blank o (λ c'. check_events blank c' (xs ++ ys))
          ≡ and_check blank
              (and_check blank o (λ c'. check_events blank c' xs))
              (λ c'. check_events blank c' ys)
    check_rest blank none xs ys h = refl
    check_rest blank (some c) xs ys h = h c
