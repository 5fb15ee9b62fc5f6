-- ===== src/Http/Paths.antt =====
-- The request line and the paths that src/server/management_http.cpp understands.
use mq_work.Common.{
  ◌-◌, ◌<◌, ◌≡◌, refl, ap, ◌∙◌, true, some, [], ◌∷◌, ◌++◌, arith, length, length-append,
  take-length-append,
}
use mq_work.Common.Text.{Text, codes, split_at-append, lacks}
use mq_work.Http.{
  starts_with, has_part, request_line, first_part, second_part, names_queue, queue_of,
}

starts_with-append : (s t : Text) → starts_with s (s ++ t) ≡ true
unfolding starts_with
starts_with-append [] t = refl
starts_with-append (x ∷ s) t = ground (arith, starts_with-append s t)

starts_with_refl : (s : Text) → starts_with s s ≡ true
unfolding starts_with
starts_with_refl [] = refl
starts_with_refl (x ∷ s) = ground (arith, starts_with_refl s)

has_part-append : (part s : Text) → has_part part (s ++ part) ≡ true
unfolding has_part
has_part-append [] [] = refl
has_part-append (x ∷ part) [] = ground (arith, starts_with_refl (x ∷ part))
has_part-append part (y ∷ s) = ground (arith, has_part-append part s)

pub request_line-append :
    (method path rest : Text)
    → lacks b' ' method ≡ true
    → lacks b' ' path ≡ true
    → request_line (method ++ b' ' ∷ (path ++ b' ' ∷ rest)) ≡ some (method, path)
unfolding request_line
request_line-append method path rest h k =
    ap first_part (split_at-append b' ' method (path ++ b' ' ∷ rest) h)
    ∙ ap (second_part method) (split_at-append b' ' path rest k)

abbrev pub queue_path : Text → Text → Text
queue_path qname word = codes "/queues/" ++ (qname ++ word)

pub names_queue-path :
    (word qname : Text) → 0 < length word → names_queue word (queue_path qname word) ≡ true
unfolding names_queue starts_with
names_queue-path word qname h =
    let l = length-append qname word in
    ground
      (arith, starts_with-append (codes "/queues/") (qname ++ word), has_part-append word qname)

pub queue_of-path : (word qname : Text) → queue_of (length word) (queue_path qname word) ≡ qname
unfolding queue_of
queue_of-path word qname =
    let l = length-append qname word in
    let e : length (queue_path qname word) - 8 - length word ≡ length qname = omega arith in
    rw e (take-length-append qname word)
