-- ===== src/Http/Bounds.antt =====
-- The buffers of src/server/management_http.cpp: nothing that is written to them is cut off.
use mq_work.Common.{
  ℕ, zero, suc, ◌+◌, ◌-◌, ◌/◌, ◌%◌, ◌<◌, ◌≤◌, ◌≡◌, ap, ◌∙◌, Bool, [], ◌∷◌, ◌++◌, arith, length,
  length-append, take_past, if◌then◌else◌, Option-cases, Bool-cases, inl, inr,
}
use mq_work.Common.Text.{Text, codes, ◌==◌}
use mq_work.Common.Dict.{find}
use mq_work.Platform.{Platform}
use mq_work.Storage.Stream.{FileStream, clear, seek}
use mq_work.Storage.Framing.{Codec, valid_mark}
use mq_work.Storage.{QueueMessage, Stats, stats_loop, read_record, get_stats}
use mq_work.Host.{Host, exists_queue, to_string, digits}
use mq_work.Host.Consume.{queue_runtime_stats}
use mq_work.Http.{get_queue_stats, crlf, snprintf, stats_body, json_header}

length-digits : (fuel n : ℕ) → length (digits fuel n) ≤ fuel
unfolding digits
length-digits zero n = omega arith
length-digits (suc fuel) n = ground (
  arith,
  length-digits fuel (n / 10),
  length-append (digits fuel (n / 10)) ((b'0' + n % 10) ∷ []),
)

pub length-to_string : (n : ℕ) → length (to_string n) ≤ 20
unfolding to_string
length-to_string n = length-digits 20 n

pub snprintf_fits : (size : ℕ) (text : Text) → length text < size → snprintf size text ≡ text
snprintf_fits size text h = take_past (size - 1) text (omega arith)

invalid-stats_loop :
    (codec : Codec) (fuel total invalid : ℕ) (s : FileStream)
    → invalid ≤ total
    → let ((t, i), _) = stats_loop codec fuel total invalid s in i ≤ t
unfolding stats_loop
invalid-stats_loop codec zero total invalid s h = h
invalid-stats_loop codec (suc fuel) total invalid s h =
    elim (Option-cases (read_record codec s).0) [
      | inl e ↦ rw (e, stats_loop) h
      | inr ((p, len), e) ↦
          rw (e, stats_loop)
            (elim (Bool-cases (p.valid == valid_mark)) [
              | inl v ↦ rw v (
                  invalid-stats_loop codec fuel (suc total) invalid (read_record codec s).1
                    (omega arith))
              | inr v ↦ rw v (
                  invalid-stats_loop codec fuel (suc total) (suc invalid) (read_record codec s).1
                    (omega arith))
            ])
    ]

invalid-get_stats :
    (codec : Codec) (q : QueueMessage) → let s = (get_stats codec q).0 in s.invalid ≤ s.total
unfolding get_stats
invalid-get_stats codec q =
    let l =
      invalid-stats_loop codec (suc (length q.file.contents)) 0 0 (seek 0 (clear q.file))
        (omega arith) in
    ground (arith, l)

append-le : (xs ys : Text) (m n : ℕ) → length xs ≤ m → length ys ≤ n → length (xs ++ ys) ≤ m + n
append-le xs ys m n h k = omega (arith, length-append xs ys)

length-json_header : (n : ℕ) → length (json_header n) ≤ 100
length-json_header n =
    let l = append-le (to_string n) crlf 20 2 (length-to_string n) (omega arith) in
    let k = append-le (to_string n ++ crlf) crlf 22 2 l (omega arith) in omega arith

module _ (P : Platform) (show_ratio : ℕ → ℕ → Text) where
  pub invalid-queue_runtime_stats :
      (qname : Text) (h : Host P) → let s = (queue_runtime_stats P qname h).0 in s.invalid ≤ s.total
  unfolding queue_runtime_stats
  invalid-queue_runtime_stats qname h = elim (Option-cases (find qname h.queue_messages)) [
    | inl e ↦ rw (e, queue_runtime_stats) (omega arith)
    | inr (q, e) ↦ rw (e, queue_runtime_stats) (invalid-get_stats P.codec q)
  ]

  -- With a ratio between zero and one, which `%.3f` prints in five characters, the body of the
  -- statistics is at most 150 bytes long.
  length-stats_body :
      ((i t : ℕ) → i ≤ t → length (show_ratio i t) ≤ 5)
      → (exists : Bool) (s : Stats) → s.invalid ≤ s.total
      → length (stats_body P show_ratio exists s) ≤ 150
  length-stats_body fits exists s le =
      let e : length (if exists then codes "true" else codes "false") ≤ 5 = ground arith in
      let tz : Text = show_ratio s.invalid s.total ++ codes "}" in
      let z = append-le _ (codes "}") 5 1 (fits s.invalid s.total le) (omega arith) in
      let ty : Text = codes ",\"invalid_ratio\":" ++ tz in
      let y : length ty ≤ 23 = omega arith in
      let tx : Text = to_string s.file_size ++ ty in
      let x : length tx ≤ 43 = append-le _ ty 20 23 (length-to_string s.file_size) y in
      let tw : Text = codes ",\"file_size\":" ++ tx in
      let w : length tw ≤ 56 = omega arith in
      let tv : Text = to_string s.depth ++ tw in
      let v : length tv ≤ 76 = append-le _ tw 20 56 (length-to_string s.depth) w in
      let tu : Text = codes ",\"depth\":" ++ tv in
      let u : length tu ≤ 85 = omega arith in
      let t = append-le (if exists then codes "true" else codes "false") tu 5 85 e u in omega arith

  -- If a ratio of at most one is printed in at most five characters, the answer with the statistics
  -- of a queue is whole: `snprintf` cuts nothing off its header or its body, which has at most 150
  -- bytes for a buffer of 256.
  pub get_queue_stats-whole :
      ((i t : ℕ) → i ≤ t → length (show_ratio i t) ≤ 5)
      → (qname : Text) (h : Host P)
      → let (s, h') = queue_runtime_stats P qname h in
        let body = stats_body P show_ratio (exists_queue P qname h') s in
        (length body ≤ 150)
        × (get_queue_stats P show_ratio qname h
            ≡ (record { header = json_header (length body); body = body }, h'))
  unfolding get_queue_stats
  get_queue_stats-whole fits qname h =
      let (s, h') = queue_runtime_stats P qname h in
      let body = stats_body P show_ratio (exists_queue P qname h') s in
      let l =
        length-stats_body fits (exists_queue P qname h') s (invalid-queue_runtime_stats qname h) in
      let b : snprintf 256 body ≡ body = snprintf_fits 256 body (omega arith) in
      let k : snprintf 256 (json_header (length body)) ≡ json_header (length body) =
        snprintf_fits 256 _ (omega (arith, length-json_header (length body))) in
      (
        l,
        ap (λ (b : Text). (record { header = snprintf 256 (json_header (length b)); body = b }, h'))
              b
            ∙ ap (λ (t : Text). (record { header = t; body = body }, h')) k,
      )
