-- ===== src/Http/Answer.antt =====
-- What src/server/management_http.cpp answers to the two requests that it understands.
use mq_work.Common.{
  ℕ, ◌≤◌, ◌≡◌, refl, ap, ◌∙◌, Bool, true, some, ◌∷◌, ◌++◌, arith, length, Option, take_past,
}
use mq_work.Common.Text.{Text, codes, lacks, lacks-append, ◌==◌}
use mq_work.Platform.{Platform}
use mq_work.Host.{Host, exists_queue, to_string, digits}
use mq_work.Host.Consume.{queue_runtime_stats, compact_queue}
use mq_work.Http.{
  HttpReply, stats_body, json_header, names_queue, queue_of, get_queue_stats, post_compact, respond,
  handle_client,
}
use mq_work.Http.Paths.{queue_path, request_line-append, names_queue-path, queue_of-path}
use mq_work.Http.Bounds.{get_queue_stats-whole}

-- A request with this method, for this queue; behind the path comes the rest of what was read.
abbrev pub request : Text → Text → Text → Text → Text
request method qname word rest = method ++ b' ' ∷ (queue_path qname word ++ b' ' ∷ rest)

lacks-queue_path :
    (qname word : Text)
    → lacks b' ' qname ≡ true
    → lacks b' ' word ≡ true
    → lacks b' ' (queue_path qname word) ≡ true
unfolding lacks
lacks-queue_path qname word h k =
    lacks-append b' ' (codes "/queues/") (qname ++ word) refl (lacks-append b' ' qname word h k)

module _ (P : Platform) (show_ratio : ℕ → ℕ → Text) where
  handle_client-request :
      (opens : Bool) (method qname word rest : Text) (h : Host P)
      → lacks b' ' method ≡ true
      → lacks b' ' qname ≡ true
      → lacks b' ' word ≡ true
      → length (request method qname word rest) ≤ 4095
      → handle_client P show_ratio opens (request method qname word rest) h ≡ (
          let (r, h') = respond P show_ratio opens method (queue_path qname word) h in (some r, h'))
  unfolding handle_client
  handle_client-request opens method qname word rest h a b c size =
      rw
        (
          take_past 4095 (request method qname word rest) size,
          request_line-append method (queue_path qname word) rest a
              (lacks-queue_path qname word b c),
          handle_client,
        )
        refl

  respond-stats :
      (opens : Bool) (path : Text) (h : Host P)
      → names_queue (codes "/stats") path ≡ true
      → respond P show_ratio opens (codes "GET") path h
        ≡ get_queue_stats P show_ratio (queue_of 6 path) h
  unfolding respond ◌==◌
  respond-stats opens path h e = rw (e, respond) refl

  respond-compact :
      (opens : Bool) (path : Text) (h : Host P)
      → names_queue (codes "/compact") path ≡ true
      → respond P show_ratio opens (codes "POST") path h
        ≡ post_compact P show_ratio opens (queue_of 8 path) h
  unfolding respond ◌==◌
  respond-compact opens path h e = rw (e, respond) refl

  abbrev answered : HttpReply × Host P → Option HttpReply × Host P
  answered (r, h) = (some r, h)

  -- A request for the statistics of a queue is answered with those of that queue, and says whether
  -- the queue exists. This holds for every name without a blank, if the request has at most 4095
  -- bytes and has arrived when it is read. The answer is not cut off, if a ratio of at most one is
  -- printed in at most five characters.
  pub handle_client-queue_runtime_stats :
      ((i t : ℕ) → i ≤ t → length (show_ratio i t) ≤ 5)
      → (opens : Bool) (qname rest : Text) (h : Host P) → lacks b' ' qname ≡ true
      → length (request (codes "GET") qname (codes "/stats") rest) ≤ 4095
      → let (s, h') = queue_runtime_stats P qname h in
        let body = stats_body P show_ratio (exists_queue P qname h') s in
        handle_client P show_ratio opens (request (codes "GET") qname (codes "/stats") rest) h
        ≡ (some (record { header = json_header (length body); body = body }), h')
  unfolding lacks
  handle_client-queue_runtime_stats fits opens qname rest h l size =
      let word = codes "/stats" in
      handle_client-request opens (codes "GET") qname word rest h refl l refl size
      ∙ ap answered (
          respond-stats opens (queue_path qname word) h (names_queue-path word qname (omega arith))
          ∙ ap (λ (q : Text). get_queue_stats P show_ratio q h) (queue_of-path word qname)
          ∙ (get_queue_stats-whole P show_ratio fits qname h).1)

  -- A request to compact a queue compacts that queue. This holds for every name without a blank, also
  -- when there is no such queue, if the request has at most 4095 bytes and has arrived when it is
  -- read.
  pub handle_client-compact_queue :
      (opens : Bool) (qname rest : Text) (h : Host P)
      → lacks b' ' qname ≡ true
      → length (request (codes "POST") qname (codes "/compact") rest) ≤ 4095
      → handle_client P show_ratio opens (request (codes "POST") qname (codes "/compact") rest) h
        ≡ (
          some (record { header = json_header 11; body = codes "{\"ok\":true}" }),
          compact_queue P opens qname h,
        )
  unfolding lacks post_compact to_string digits
  handle_client-compact_queue opens qname rest h l size =
      let word = codes "/compact" in
      handle_client-request opens (codes "POST") qname word rest h refl l refl size
      ∙ ap answered (
          respond-compact opens (queue_path qname word) h
            (names_queue-path word qname (omega arith))
          ∙ ap (λ (q : Text). post_compact P show_ratio opens q h) (queue_of-path word qname))
