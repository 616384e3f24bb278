-- ===== src/PerIpAcl/Limit.antt =====
-- src/KPerIpAcl.cpp: every run of requests and ends of connections.
use kangle.Prelude.{ℕ, ◌<◌, ◌^◌, List, [], ◌∷◌, ◌≡◌, refl, arith, Bytes}
use kangle.PerIpAcl.{PerIpAcl, match, Event, request, closed, step, steps, new_acl}
use kangle.TextMap.{find, contains}
use kangle.PerIpAcl.Counted.{
  tally, has_hook, Counted, turned_away, Answers-next, Answers-answer, match-Answers,
}
use kangle.PerIpAcl.Closed.{clean-Counted}

steps-Counted :
    (max : ℕ) (events : List Event) (acl : PerIpAcl)
    → max < 2 ^ 32
    → Counted max acl
    → Counted max (steps events acl)
unfolding steps
steps-Counted max [] acl small good = good
steps-Counted max (request pool ip ∷ events) acl small good =
    steps-Counted max events (step (request pool ip) acl) small (
      unfold step in
      Answers-next max pool ip acl (match pool ip acl) (match-Answers max pool ip acl small good))
steps-Counted max (closed pool ∷ events) acl small good =
    steps-Counted max events (step (closed pool) acl) small
      (unfold step in clean-Counted max pool acl good)

new_acl-Counted : (max : ℕ) → Counted max (new_acl max)
new_acl-Counted max = record {
  limit = refl;
  counts = λ ip. unfold find tally in refl;
  bound = λ ip. unfold tally in omega arith;
  active = λ pool. unfold contains has_hook in refl;
}

-- After any requests and ends of connections, where the limit fits an unsigned of 32 bits: the map's
-- count of a client is the number of its open connections that were let in, which is at most the limit,
-- and a request is turned away exactly if its connection was not let in and the client has that many.
pub steps-turned_away :
    (max : ℕ) (events : List Event)
    → max < 2 ^ 32
    → Counted max (steps events (new_acl max))
      × ((pool : ℕ) (ip : Bytes)
          → (match pool ip (steps events (new_acl max))).0
            ≡ turned_away max pool ip (steps events (new_acl max)))
steps-turned_away max events small = (
  good,
  λ pool ip.
      Answers-answer max pool ip acl (match pool ip acl) (match-Answers max pool ip acl small good),
)
  where
    acl : PerIpAcl
    acl = steps events (new_acl max)

    good : Counted max acl
    good = steps-Counted max events (new_acl max) small (new_acl-Counted max)
