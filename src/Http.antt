-- ===== src/Http.antt =====
-- src/server/management_http.hpp and src/server/management_http.cpp: the answer to one request. A
-- position in a string is the suffix that starts there.
pub mod Paths
pub mod Answer
pub mod Bounds
use mq_work.Common.{
  ℕ, suc, ◌-◌, Bool, true, false, ◌&&◌, ◌||◌, Option, none, some, List, [], ◌∷◌, ◌++◌, ltb, eqb,
  is_empty, if◌then◌else◌, length, take, drop,
}
use mq_work.Common.Text.{Text, codes, ◌==◌, split_at}
use mq_work.Platform.{Platform}
use mq_work.Storage.{Stats}
use mq_work.Host.{Host, exists_queue, to_string}
use mq_work.Host.Consume.{queue_runtime_stats, compact_queue}

-- What is written to the client: the text of the header, and the body.
pub record HttpReply : Type 0 where
  pub header : Text
  pub body : Text

-- What `snprintf` leaves in a buffer of this size.
abbrev pub snprintf : ℕ → Text → Text
snprintf size text = take (size - 1) text

-- `s.rfind(prefix, 0) == 0`
unfoldable pub starts_with : Text → Text → Bool
starts_with [] s = true
starts_with (x ∷ prefix) [] = false
starts_with (x ∷ prefix) (y ∷ s) = eqb x y && starts_with prefix s

-- `s.find(part) != std::string::npos`
unfoldable pub has_part : Text → Text → Bool
has_part part [] = is_empty part
has_part part (x ∷ s) = let rest = has_part part s in starts_with part (x ∷ s) || rest

abbrev pub crlf : Text
crlf = 13 ∷ 10 ∷ []

abbrev pub json_header : ℕ → Text
json_header size =
    codes "HTTP/1.1 200 OK"
    ++ crlf
    ++ codes "Content-Type: application/json"
    ++ crlf
    ++ codes "Content-Length: "
    ++ to_string size
    ++ crlf
    ++ crlf

abbrev pub missing_header : ℕ → Text
missing_header size =
    codes "HTTP/1.1 404 Not Found"
    ++ crlf
    ++ codes "Content-Length: "
    ++ to_string size
    ++ crlf
    ++ crlf

-- The method and the path of the request line, if it has two blanks.
abbrev pub second_part : Text → Text × Option Text → Option (Text × Text)
second_part method (path, none) = none
second_part method (path, some rest) = some (method, path)

abbrev pub first_part : Text × Option Text → Option (Text × Text)
first_part (method, none) = none
first_part (method, some rest) = second_part method (split_at b' ' rest)

unfoldable pub request_line : Text → Option (Text × Text)
request_line req = first_part (split_at b' ' req)

-- The test of a path: `/queues/`, something behind it, and this word in it.
unfoldable pub names_queue : Text → Text → Bool
names_queue word path =
    starts_with (codes "/queues/") path && ltb 8 (length path) && has_part word (drop 8 path)

-- `path.substr(8, path.size() - 8 - size)`, where the path is long enough.
unfoldable pub queue_of : ℕ → Text → Text
queue_of size path = take (length path - 8 - size) (drop 8 path)

unfoldable pub not_found : HttpReply
not_found =
    let body = codes "Not Found" in
    record { header = snprintf 128 (missing_header (length body)); body = body }

-- `%.3f` of the ratio of the two numbers is the parameter `show_ratio`.
module _ (P : Platform) (show_ratio : ℕ → ℕ → Text) where
  abbrev pub stats_body : Bool → Stats → Text
  stats_body exists s =
      codes "{\"exists\":"
      ++ ((if exists then codes "true" else codes "false")
          ++ (codes ",\"depth\":"
              ++ (to_string s.depth
                  ++ (codes ",\"file_size\":"
                      ++ (to_string s.file_size
                          ++ (codes ",\"invalid_ratio\":"
                              ++ (show_ratio s.invalid s.total ++ codes "}")))))))

  unfoldable pub get_queue_stats : Text → Host P → HttpReply × Host P
  get_queue_stats qname h =
      let (s, h') = queue_runtime_stats P qname h in
      let body = snprintf 256 (stats_body (exists_queue P qname h') s) in
      (record { header = snprintf 256 (json_header (length body)); body = body }, h')

  unfoldable pub post_compact : Bool → Text → Host P → HttpReply × Host P
  post_compact tmp_opens qname h =
      let body = codes "{\"ok\":true}" in
      (
        record { header = snprintf 128 (json_header (length body)); body = body },
        compact_queue P tmp_opens qname h,
      )

  unfoldable pub respond : Bool → Text → Text → Host P → HttpReply × Host P
  respond tmp_opens method path h =
      if (method == codes "GET") && names_queue (codes "/stats") path
      then get_queue_stats (queue_of 6 path) h
      else if (method == codes "POST") && names_queue (codes "/compact") path
      then post_compact tmp_opens (queue_of 8 path) h
      else (not_found, h)

  -- The bytes that the client has sent when `read` is called, none when it fails; `read` gives the
  -- first 4095 of them. Nothing is written for a request without a request line.
  unfoldable pub handle_client : Bool → Text → Host P → Option HttpReply × Host P
  handle_client tmp_opens received h = elim (request_line (take 4095 received)) [
    | none ↦ (none, h)
    | some (method, path) ↦ let (r, h') = respond tmp_opens method path h in (some r, h')
  ]
