-- ===== src/Route/Split.antt =====
-- `find('.', pos)` and `substr` of src/server/route.hpp. A position in a text is the suffix that
-- starts there.
use mq_work.Common.{Option, none, some, []}
use mq_work.Common.Text.{Text, split_at}

-- The segment up to the next dot, and the text behind that dot.
unfoldable pub next_segment : Text → Text × Option Text
unfolding split_at
next_segment s = split_at b'.' s

-- `dot == npos ? text.size() : dot + 1`
abbrev pub behind_dot : Option Text → Text
behind_dot none = []
behind_dot (some s) = s
