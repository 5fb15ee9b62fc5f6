-- ===== src/Route.antt =====
-- src/server/route.hpp: does a routing key match a binding key?
pub mod Split
pub mod Segments
pub mod Pattern
pub mod Wildcards
pub mod Topic
use mq_work.Common.{
  ℕ, zero, suc, Bool, true, false, not, ◌&&◌, Option, none, some, [], ◌∷◌, eqb, if◌then◌else◌,
  is_some, length,
}
use mq_work.Common.Text.{Text, ◌==◌, codes}
use Split.{next_segment, behind_dot}
use Pattern.{hash, star}
use mq_work.Proto.{ExchangeType, direct, fanout, topic, headers}

-- The loop after the key is used up: only `#` segments may be left.
unfoldable pub rest_is_hashes : ℕ → Text → Bool
unfolding next_segment
rest_is_hashes zero pattern = false
rest_is_hashes (suc fuel) [] = true
rest_is_hashes (suc fuel) (c ∷ p) =
    let (ps, pdot) = next_segment (c ∷ p) in
    let rest = rest_is_hashes fuel (behind_dot pdot) in if not (ps == hash) then false else rest

-- The main loop, one segment of each a round.
unfoldable pub match_loop : ℕ → Text → Text → Bool
unfolding next_segment rest_is_hashes
match_loop zero key pattern = false
match_loop (suc fuel) [] pattern = rest_is_hashes (suc fuel) pattern
match_loop (suc fuel) (k ∷ key) [] = false
match_loop (suc fuel) (k ∷ key) (p ∷ pattern) =
    let (ks, kdot) = next_segment (k ∷ key) in
    let (ps, pdot) = next_segment (p ∷ pattern) in
    let rest = match_loop fuel (behind_dot kdot) (behind_dot pdot) in
    if not (ps == hash) && (not (ps == star) && not (ps == ks))
    then false
    else if not (is_some pdot) && (ps == hash)
    then true
    else rest

unfoldable pub match_segments : Text → Text → Bool
unfolding match_loop
match_segments key pattern = match_loop (suc (length pattern)) key pattern

unfoldable pub match_route : ExchangeType → Text → Text → Bool
unfolding match_segments
match_route direct routing_key binding_key = routing_key == binding_key
match_route fanout routing_key binding_key = true
match_route topic routing_key binding_key = match_segments routing_key binding_key
match_route headers routing_key binding_key = false
