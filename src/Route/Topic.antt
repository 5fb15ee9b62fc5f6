-- ===== src/Route/Topic.antt =====
-- The topic loops of src/server/route.hpp decide the relation of Route/Pattern on the segments.
use mq_work.Common.{
  ap, ℕ, suc, zero, ◌<◌, ◌≡◌, ◌≢◌, refl, ◌↔◌, true, false, not, Option, none, some, List, [], ◌∷◌,
  arith, Option-cases, inl, inr, is_some, is_empty, length,
}
use mq_work.Common.Text.{Text}
use mq_work.Proto.{topic}
use mq_work.Route.Split.{next_segment, behind_dot}
use mq_work.Route.Segments.{
  segments, segments-next, ends_with_dot, length-behind_dot, dot-behind_dot,
}
use mq_work.Route.Pattern.{hash, Matches, both_end, hash_left, hash_last, one, matches, matches_iff}
use mq_work.Route.Wildcards.{TopicMatches, HasHashLast, Matches-TopicMatches, TopicMatches-Matches}
use mq_work.Route.{rest_is_hashes, match_loop, match_route}

rest_is_hashes_lem :
    (fuel : ℕ) (p : Text) → length p < fuel → rest_is_hashes fuel p ≡ matches [] (segments p)
unfolding rest_is_hashes matches
rest_is_hashes_lem zero p h = elim h [ ]
rest_is_hashes_lem (suc fuel) [] h = unfold segments in refl
rest_is_hashes_lem (suc fuel) (c ∷ p) h = rw segments-next (
    ground
      (arith, rest_is_hashes_lem fuel (behind_dot (next_segment (c ∷ p)).1), length-behind_dot c p))

-- The last segment of a text that does not end in a dot.
is_some-next :
    (c : ℕ) (s : Text)
    → ends_with_dot (c ∷ s) ≡ false
    → is_some (next_segment (c ∷ s)).1
      ≡ not (is_empty (segments (behind_dot (next_segment (c ∷ s)).1)))
is_some-next c s h = elim (Option-cases (next_segment (c ∷ s)).1) [
  | inl e ↦ rw e (unfold segments in refl)
  | inr (r, e) ↦ let (d, t, e', _) = dot-behind_dot c s r h e in rw (e, e', segments-next d t)
]

dot-behind :
    (c : ℕ) (s : Text)
    → ends_with_dot (c ∷ s) ≡ false
    → ends_with_dot (behind_dot (next_segment (c ∷ s)).1) ≡ false
dot-behind c s h = elim (Option-cases (next_segment (c ∷ s)).1) [
  | inl e ↦ rw e (unfold ends_with_dot in refl)
  | inr (r, e) ↦ let (d, t, e', e'') = dot-behind_dot c s r h e in rw (e, e') e''
]

match_loop_lem :
    (fuel : ℕ) (k p : Text)
    → length p < fuel
    → ends_with_dot p ≡ false
    → match_loop fuel k p ≡ matches (segments k) (segments p)
unfolding match_loop matches
match_loop_lem zero k p h d = elim h [ ]
match_loop_lem (suc fuel) [] p h d = unfold segments in rest_is_hashes_lem (suc fuel) p h
match_loop_lem (suc fuel) (x ∷ k) [] h d = rw (segments-next x k) (unfold segments in refl)
match_loop_lem (suc fuel) (x ∷ k) (c ∷ p) h d =
    rw (segments-next x k, segments-next c p)
      (ground (
        arith,
        is_some-next c p d,
        match_loop_lem fuel (behind_dot (next_segment (x ∷ k)).1)
            (behind_dot (next_segment (c ∷ p)).1) (omega (arith, length-behind_dot c p))
            (dot-behind c p d),
      ))

-- What the loops decide, for binding keys that do not end in a dot.
match_route-Matches :
    (routing_key binding_key : Text)
    → ends_with_dot binding_key ≡ false
    → (match_route topic routing_key binding_key ≡ true)
      ↔ Matches (segments routing_key) (segments binding_key)
unfolding match_route
match_route-Matches k p d =
    rw (match_loop_lem (suc (length p)) k p (omega arith) d) (matches_iff (segments k) (segments p))

-- A topic binding matches a routing key exactly when its segments match those of the key, where `#`
-- stands for any number of segments, none included, and `*` for one. This holds for binding keys that
-- have no `#` but in the last segment and do not end in a dot.
pub match_route_topic :
    (routing_key binding_key : Text)
    → ends_with_dot binding_key ≡ false
    → HasHashLast (segments binding_key)
    → (match_route topic routing_key binding_key ≡ true)
      ↔ TopicMatches (segments routing_key) (segments binding_key)
match_route_topic k p d h =
    let code = match_route-Matches k p d in
    (λ e. Matches-TopicMatches (code.0 e), λ t. code.1 (TopicMatches-Matches h t))

-- The last segment of a pattern, if there is one.
abbrev pub last_segment : List Text → Option Text
last_segment [] = none
last_segment (p ∷ []) = some p
last_segment (p ∷ q ∷ ps) = last_segment (q ∷ ps)

last-hash_left :
    {p : Text} {ps : List Text} → Matches [] ps → p ≡ hash → last_segment (p ∷ ps) ≡ some hash
last-hash_left both_end e = ap some e
last-hash_left (hash_left e' m) e = last-hash_left m e'

-- With pattern segments left over, the last segment does not change.
Matches-length :
    {ks ps : List Text} → Matches ks ps → last_segment ps ≢ some hash → length ks ≡ length ps
Matches-length both_end h = refl
Matches-length (hash_left e m) h = absurd (h (last-hash_left m e))
Matches-length (hash_last e) h = absurd (h (ap some e))
Matches-length (one c both_end) h = refl
Matches-length (one c (hash_left e m)) h = absurd (h (last-hash_left m e))
Matches-length (one c (hash_last e)) h = absurd (h (ap some e))
Matches-length (one c (one c' m)) h = ap suc (Matches-length (one c' m) h)

-- Only a last `#` can stand for several segments: a pattern whose last segment is not `#` matches
-- no key with another number of segments. This holds for binding keys that do not end in a dot.
pub match_route-length :
    (routing_key binding_key : Text)
    → ends_with_dot binding_key ≡ false
    → last_segment (segments binding_key) ≢ some hash
    → match_route topic routing_key binding_key ≡ true
    → length (segments routing_key) ≡ length (segments binding_key)
match_route-length k p d l h = Matches-length ((match_route-Matches k p d).0 h) l
