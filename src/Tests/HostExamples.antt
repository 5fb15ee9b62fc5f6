-- ===== src/Tests/HostExamples.antt =====
-- Applications of the theorems on src/server/virtual_host.cpp.
use mq_work.Common.{◌≡◌, refl, false, ◌&&◌, none, some, [], ◌∷◌, ◌++◌, if◌then◌else◌}
use mq_work.Common.Text.{codes, ◌==◌}
use mq_work.Common.Dict.{find}
use mq_work.Queue.{MsgQueue, msg_queue, set_dead_letter_config, no_dead_letter}
use mq_work.Proto.{default_properties}
use mq_work.Host.{Host, VirtualHost, Binding, virtual_host, select_exchange}
use mq_work.Host.Publish.{keyed, publish_ex, basic_publish, publish_to_exchange}
use mq_work.Host.Consume.{basic_consume, basic_ack, basic_nack, dead_letter_properties}
use mq_work.Host.Delivery.{queue_contents, next_id, Published, basic_publish-Published}
use mq_work.Host.Fanout.{spread, spread_to, publish_ex-Spread}
use mq_work.Host.Loop.{Routed}
use mq_work.Host.Routing.{routed_in, publish_to_exchange-Routed}
use mq_work.Storage.Refinement.{acked}
use mq_work.Host.Pull.{Takes, basic_consume-Takes}
use mq_work.Host.DeadLetter.{IsQueue, letter_of, basic_nack_dead_letter}
use mq_work.Host.Invariant.{IsConsistent}
use mq_work.Host.History.{host_calls, host_calls-virtual_host-IsConsistent}
use mq_work.Tests.SampleHost.{waiting, store_with, work_queue, busy}
use mq_work.Tests.SamplePlatform.{
  sample, sample-HasExchangeLaws, work, dead, body, keyed_work, sample_calls,
}

host_calls-virtual_host-IsConsistent_example :
    IsConsistent sample (host_calls sample sample_calls (virtual_host sample [] 0))
host_calls-virtual_host-IsConsistent_example =
    host_calls-virtual_host-IsConsistent sample sample-HasExchangeLaws [] 0 sample_calls

basic_publish-Published_example :
    Published sample work none body busy (basic_publish sample work none body busy) work
basic_publish-Published_example = basic_publish-Published sample work none body busy work

publish_to_exchange-Routed_example :
    Routed sample false
      (routed_in sample busy dead keyed_work (select_exchange sample dead busy))
      keyed_work
      body
      busy
      (publish_to_exchange sample dead (some keyed_work) body busy)
      work
unfolding mq_work.Host.exchange_bindings find ◌==◌
publish_to_exchange-Routed_example =
    publish_to_exchange-Routed sample dead keyed_work body busy work refl (refl, (refl, tt))

publish_ex-Spread_example :
    let p = keyed dead (some default_properties) in
    let ex = select_exchange sample dead busy in
    ((publish_ex sample dead dead (some default_properties) body busy).2
      ≡ spread sample busy dead p ex)
    × (queue_contents dead (publish_ex sample dead dead (some default_properties) body busy).0 ≡ (
        if spread_to sample busy dead p dead ex
        then queue_contents dead busy ++ record { properties = p; body = body } ∷ []
        else queue_contents dead busy))
unfolding mq_work.Host.exchange_bindings find ◌==◌
publish_ex-Spread_example =
    publish_ex-Spread sample dead dead (some default_properties) body busy dead (refl, (refl, tt))

basic_consume-Takes_example : Takes sample work busy (basic_consume sample work busy) work
basic_consume-Takes_example = basic_consume-Takes sample work busy work

work-IsQueue : IsQueue sample work (store_with (waiting ∷ [])) work_queue busy
unfolding find ◌==◌ mq_work.Queue.Manager.select_queue
work-IsQueue = record { has_store = refl; has_queue = refl }

basic_nack_dead_letter_example :
    let routed =
      routed_in sample busy dead
        (dead_letter_properties (next_id busy.seq) dead)
        (select_exchange sample dead busy) in
    let before =
      if routed && dead == dead
      then queue_contents dead busy ++ letter_of sample work_queue waiting busy ∷ []
      else queue_contents dead busy in
    queue_contents dead (basic_nack sample work (codes "7") false [] busy)
    ≡ (if work == dead then acked (codes "7") before else before)
unfolding mq_work.Host.exchange_bindings find ◌==◌ mq_work.Host.Consume.find_message
    mq_work.Queue.has_dead_letter_config set_dead_letter_config msg_queue
basic_nack_dead_letter_example =
    basic_nack_dead_letter sample work (codes "7") [] (store_with (waiting ∷ [])) work_queue waiting
      busy dead work-IsQueue refl refl refl (refl, (refl, tt))
