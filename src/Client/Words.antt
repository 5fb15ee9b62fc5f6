-- ===== src/Client/Words.antt =====
-- Words and blanks in the lines of src/client/client.cpp.
use mathlib.Core.List.{append-nil}
use mq_work.Common.{
  ℕ, zero, suc, ◌≡◌, refl, sym, ap, ◌∙◌, Bool, true, false, List, [], ◌∷◌, ◌++◌, arith, is_empty,
  length, ◌<◌, ◌≤◌, length-append, if◌then◌else◌,
}
use mq_work.Common.Text.{Text}
use mq_work.Proto.{Args}
use mq_work.Client.{
  is_blank, skip_blanks, take_word, next_word, add_header, headers_loop, headers_of,
}

unfoldable pub lacks_blanks : Text → Bool
lacks_blanks [] = true
lacks_blanks (c ∷ s) = let rest = lacks_blanks s in if is_blank c then false else rest

-- A word that the stream reads as one.
abbrev pub IsWord : Text → Type 0
IsWord w = (is_empty w ≡ false) × (lacks_blanks w ≡ true)

take_word-append : (w s : Text) → lacks_blanks w ≡ true → take_word (w ++ b' ' ∷ s) ≡ (w, b' ' ∷ s)
unfolding take_word lacks_blanks is_blank
take_word-append [] s h = refl
take_word-append (c ∷ w) s h = ground (arith, take_word-append w s)

take_word-all : (w : Text) → lacks_blanks w ≡ true → take_word w ≡ (w, [])
unfolding take_word lacks_blanks
take_word-all [] h = refl
take_word-all (c ∷ w) h = ground (arith, take_word-all w)

skip_blanks-word : (w s : Text) → IsWord w → skip_blanks (w ++ s) ≡ w ++ s
unfolding skip_blanks lacks_blanks
skip_blanks-word [] s h = absurd (ground arith)
skip_blanks-word (c ∷ w) s h = ground arith

-- The next word behind a blank, when another blank follows it and when it is the last.
pub next_word-more : (w s : Text) → IsWord w → next_word (b' ' ∷ (w ++ b' ' ∷ s)) ≡ (w, b' ' ∷ s)
unfolding next_word skip_blanks is_blank
next_word-more w s h = ap take_word (skip_blanks-word w (b' ' ∷ s) h) ∙ take_word-append w s h.1

pub next_word-last : (w : Text) → IsWord w → next_word (b' ' ∷ w) ≡ (w, [])
unfolding next_word skip_blanks is_blank
next_word-last w h =
    ap next_word (ap (◌∷◌ b' ') (sym (append-nil w)))
    ∙ (ap take_word (skip_blanks-word w [] h ∙ append-nil w) ∙ take_word-all w h.1)

-- Words, each behind a blank.
unfoldable pub joined : List Text → Text
joined [] = []
joined (w ∷ ws) = b' ' ∷ (w ++ joined ws)

-- Words with a blank between them.
abbrev pub unwords : List Text → Text
unwords [] = []
unwords (w ∷ ws) = w ++ joined ws

abbrev pub AreWords : List Text → Type 0
AreWords [] = Unit {0}
AreWords (w ∷ ws) = IsWord w × AreWords ws

pub next_word-joined :
    (w : Text) (ws : List Text) → IsWord w → next_word (joined (w ∷ ws)) ≡ (w, joined ws)
unfolding joined
next_word-joined w [] h =
    ap (λ (s : Text). next_word (b' ' ∷ s)) (append-nil w) ∙ next_word-last w h
next_word-joined w (v ∷ ws) h = next_word-more w (v ++ joined ws) h

-- A blank in front makes no difference.
next_word-unwords :
    (w : Text) (ws : List Text) → IsWord w → next_word (unwords (w ∷ ws)) ≡ (w, joined ws)
unfolding next_word joined skip_blanks is_blank
next_word-unwords w ws h = next_word-joined w ws h

-- The headers that the words of a message give, in their order.
abbrev pub add_headers : Args → List Text → Args
add_headers args [] = args
add_headers args (w ∷ ws) = add_headers (add_header args w) ws

headers_loop-next_word :
    (fuel : ℕ) (args : Args) (s rest w : Text)
    → next_word s ≡ (w, rest)
    → is_empty w ≡ false
    → headers_loop (suc fuel) args s ≡ headers_loop fuel (add_header args w) rest
unfolding headers_loop
headers_loop-next_word fuel args s rest w e n = rw (e, headers_loop, n) refl

headers_loop-joined :
    (fuel : ℕ) (args : Args) (ws : List Text)
    → length ws < fuel
    → AreWords ws
    → headers_loop fuel args (joined ws) ≡ add_headers args ws
unfolding headers_loop joined next_word skip_blanks take_word
headers_loop-joined zero args ws h a = elim h [ ]
headers_loop-joined (suc fuel) args [] h a = refl
headers_loop-joined (suc fuel) args (w ∷ ws) h a =
    headers_loop-next_word fuel args (joined (w ∷ ws)) (joined ws) w (next_word-joined w ws a.0)
      a.0.0
    ∙ headers_loop-joined fuel (add_header args w) ws (omega arith) a.1

length-joined : (ws : List Text) → length ws ≤ length (joined ws)
unfolding joined
length-joined [] = omega arith
length-joined (w ∷ ws) = omega (arith, length-joined ws, length-append w (joined ws))

length-word : (w : Text) → is_empty w ≡ false → 0 < length w
length-word [] h = absurd (ground arith)
length-word (c ∷ w) h = omega arith

pub headers_of-unwords :
    (ws : List Text) → AreWords ws → headers_of (unwords ws) ≡ add_headers [] ws
unfolding headers_of headers_loop next_word skip_blanks take_word
headers_of-unwords [] a = refl
headers_of-unwords (w ∷ ws) a =
    headers_loop-next_word (length (unwords (w ∷ ws))) [] (unwords (w ∷ ws)) (joined ws) w
      (next_word-unwords w ws a.0) a.0.0
    ∙ headers_loop-joined (length (unwords (w ∷ ws))) (add_header [] w) ws
        (omega (arith, length-word w a.0.0, length-joined ws, length-append w (joined ws))) a.1
