-- ===== src/Tests/RouteExamples.antt =====
-- Applications of the theorems on src/server/route.hpp and src/common/queue.cpp.
use mq_work.Common.{◌≡◌, refl, ◌↔◌, true, false, [], ◌∷◌, arith, length}
use mq_work.Common.Text.{codes, ◌==◌, lacks}
use mq_work.Common.Dict.{find}
use mq_work.Proto.{topic}
use mq_work.Route.{match_route}
use mq_work.Route.Segments.{segments, ends_with_dot}
use mq_work.Route.Wildcards.{TopicMatches}
use mq_work.Route.Topic.{match_route_topic, match_route-length}
use mq_work.Queue.{MsgQueue, no_dead_letter}
use mq_work.Queue.ArgsText.{set_args, get_args, set_args-get_args}

match_route_topic_example :
    (match_route topic (codes "stock.usd.nyse") (codes "stock.#") ≡ true)
    ↔ TopicMatches (segments (codes "stock.usd.nyse")) (segments (codes "stock.#"))
unfolding ends_with_dot segments ◌==◌
match_route_topic_example =
    match_route_topic (codes "stock.usd.nyse") (codes "stock.#") refl (refl, tt)

match_route-length_example : length (segments (codes "a.b")) ≡ length (segments (codes "*.b"))
unfolding ends_with_dot match_route ◌==◌ segments
match_route-length_example =
    match_route-length (codes "a.b") (codes "*.b") refl (λ e. ground arith) refl

abbrev printed : MsgQueue
printed = record {
  name = codes "q";
  durable = false;
  exclusive = false;
  auto_delete = false;
  args = (codes "x-max", codes "10") ∷ (codes "y", codes "a=b") ∷ [];
  dlq_config = no_dead_letter;
}

abbrev reader : MsgQueue
reader = record printed { args = [] }

set_args-get_args_example : (set_args (get_args printed) reader).args ≡ printed.args
unfolding lacks find ◌==◌
set_args-get_args_example =
    set_args-get_args printed reader (refl, refl, refl, (refl, refl, refl, tt)) (refl, (refl, tt))
      refl
