-- ===== src/Tests/StoreExamples.antt =====
-- An application of the theorem that relates the store of src/server/queue_message.hpp to a queue.
use mq_work.Common.{◌≡◌, none, true, false, List, [], ◌∷◌}
use mq_work.Common.Text.{codes}
use mq_work.Storage.Fifo.{contents_of}
use mq_work.Storage.Refinement.{
  StoreCall, inserts, removes, looks_at_front, counts, compacts, store_calls, queue_calls,
  calls_refine,
}
use mq_work.Tests.SampleCodec.{sample_codec}
use mq_work.Tests.SampleHost.{store_with, waiting}

abbrev calls : List StoreCall
calls =
    inserts none (codes "a") true
    ∷ inserts none (codes "b") false
    ∷ looks_at_front
    ∷ removes []
    ∷ compacts false
    ∷ counts
    ∷ []

calls_refine_example :
    let q = store_with (waiting ∷ []) in
    (contents_of (store_calls sample_codec calls q).0.msgs, (store_calls sample_codec calls q).1)
    ≡ queue_calls calls (contents_of q.msgs)
calls_refine_example = calls_refine sample_codec calls (store_with (waiting ∷ []))
