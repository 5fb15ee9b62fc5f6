-- ===== src/Route/Wildcards.antt =====
-- The usual meaning of topic patterns, as docs of the project give it, beside the rule of
-- src/server/route.hpp.
use mq_work.Common.{◌≡◌, ◌≢◌, refl, ◌⊎◌, inl, inr, false, List, [], ◌∷◌, arith, Bool-cases}
use mq_work.Common.Text.{Text, ◌==◌, eq_iff}
use mq_work.Route.Pattern.{hash, star, Covers, Matches, both_end, hash_left, hash_last, one}

-- `#` stands for any number of segments, `*` for one, and any other segment for itself.
pub data TopicMatches : List Text → List Text → Type 0 where
  done : TopicMatches [] []
  hash_none :
      {p : Text} {ks ps : List Text} → p ≡ hash → TopicMatches ks ps → TopicMatches ks (p ∷ ps)
  hash_more :
      {p k : Text} {ks ps : List Text}
      → p ≡ hash
      → TopicMatches ks (p ∷ ps)
      → TopicMatches (k ∷ ks) (p ∷ ps)
  segment :
      {p k : Text} {ks ps : List Text}
      → p ≢ hash
      → (p ≡ star) ⊎ (p ≡ k)
      → TopicMatches ks ps
      → TopicMatches (k ∷ ks) (p ∷ ps)

-- No `#` but in the last segment.
abbrev pub HasHashLast : List Text → Type 0
HasHashLast [] = Unit
HasHashLast (p ∷ []) = Unit
HasHashLast (p ∷ q ∷ ps) = ((p == hash) ≡ false) × HasHashLast (q ∷ ps)

hash_any : {p : Text} (ks : List Text) → p ≡ hash → TopicMatches ks (p ∷ [])
hash_any [] e = hash_none e done
hash_any (k ∷ ks) e = hash_more e (hash_any ks e)

not_hash : {p k : Text} → (p == hash) ≡ false → Covers p k → (p ≡ star) ⊎ (p ≡ k)
not_hash {p = p} e (inl h) = absurd (ground (arith, eq_iff p hash))
not_hash e (inr o) = o

-- Whatever the code matches, matches in the usual meaning.
pub Matches-TopicMatches : {ks ps : List Text} → Matches ks ps → TopicMatches ks ps
Matches-TopicMatches both_end = done
Matches-TopicMatches (hash_left e m) = hash_none e (Matches-TopicMatches m)
Matches-TopicMatches (hash_last {k = k} {ks = ks} e) = hash_any (k ∷ ks) e
Matches-TopicMatches (one {p = p} c m) = elim (Bool-cases (p == hash)) [
  | inl e ↦ let h = (eq_iff p hash).0 e in hash_more h (hash_none h (Matches-TopicMatches m))
  | inr e ↦ segment (λ h. ground (arith, eq_iff p hash)) (not_hash e c) (Matches-TopicMatches m)
]

TopicMatches-nothing : {ks : List Text} → TopicMatches ks [] → ks ≡ []
TopicMatches-nothing done = refl

HasHashLast-tail : (p : Text) (ps : List Text) → HasHashLast (p ∷ ps) → HasHashLast ps
HasHashLast-tail p [] h = tt
HasHashLast-tail p (q ∷ ps) h = h.1

-- Behind a `#` there is nothing.
no_inner_hash :
    {p : Text} {A : Type 0} (q : Text) (ps : List Text) → p ≡ hash → HasHashLast (p ∷ q ∷ ps) → A
no_inner_hash {p = p} q ps e h = absurd (ground (arith, h.0, eq_iff p hash))

-- A pattern whose only `#` is its last segment matches in the code whatever it matches in the usual
-- meaning.
pub TopicMatches-Matches : {ks ps : List Text} → HasHashLast ps → TopicMatches ks ps → Matches ks ps
TopicMatches-Matches h done = both_end
TopicMatches-Matches h (hash_none {ps = []} e t) =
    rw (TopicMatches-nothing t) (hash_left e both_end)
TopicMatches-Matches h (hash_none {ps = q ∷ ps} e t) = no_inner_hash q ps e h
TopicMatches-Matches h (hash_more {ps = []} e t) = hash_last e
TopicMatches-Matches h (hash_more {ps = q ∷ ps} e t) = no_inner_hash q ps e h
TopicMatches-Matches h (segment {p = p} {ps = ps} n c t) =
    one (inr c) (TopicMatches-Matches (HasHashLast-tail p ps h) t)
