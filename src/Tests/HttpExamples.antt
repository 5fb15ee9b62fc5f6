-- ===== src/Tests/HttpExamples.antt =====
-- Applications of the theorems on src/server/management_http.cpp.
use mq_work.Common.{ℕ, ◌≤◌, ◌≡◌, refl, true, some, [], arith, length}
use mq_work.Common.Text.{Text, codes, lacks}
use mq_work.Host.{exists_queue}
use mq_work.Host.Consume.{queue_runtime_stats, compact_queue}
use mq_work.Http.{stats_body, json_header, get_queue_stats, handle_client}
use mq_work.Http.Answer.{request, handle_client-queue_runtime_stats, handle_client-compact_queue}
use mq_work.Http.Bounds.{get_queue_stats-whole}
use mq_work.Tests.SamplePlatform.{sample, work}
use mq_work.Tests.SampleHost.{busy}

-- A C library that prints every ratio as zero.
abbrev zeros : ℕ → ℕ → Text
zeros invalid total = codes "0.000"

zeros-short : (i t : ℕ) → i ≤ t → length (zeros i t) ≤ 5
zeros-short i t h = omega arith

work-lacks : lacks b' ' work ≡ true
unfolding lacks
work-lacks = refl

get_queue_stats-whole_example :
    let (s, h') = queue_runtime_stats sample work busy in
    let body = stats_body sample zeros (exists_queue sample work h') s in
    (length body ≤ 150)
    × (get_queue_stats sample zeros work busy
        ≡ (record { header = json_header (length body); body = body }, h'))
get_queue_stats-whole_example = get_queue_stats-whole sample zeros zeros-short work busy

handle_client-queue_runtime_stats_example :
    let (s, h') = queue_runtime_stats sample work busy in
    let body = stats_body sample zeros (exists_queue sample work h') s in
    handle_client sample zeros true
      (request (codes "GET") work (codes "/stats") (codes "HTTP/1.1"))
      busy
    ≡ (some (record { header = json_header (length body); body = body }), h')
handle_client-queue_runtime_stats_example =
    handle_client-queue_runtime_stats sample zeros zeros-short true work (codes "HTTP/1.1") busy
      work-lacks (omega arith)

handle_client-compact_queue_example :
    handle_client sample zeros true (request (codes "POST") work (codes "/compact") []) busy ≡ (
      some (record { header = json_header 11; body = codes "{\"ok\":true}" }),
      compact_queue sample true work busy,
    )
handle_client-compact_queue_example =
    handle_client-compact_queue sample zeros true work [] busy work-lacks (omega arith)
