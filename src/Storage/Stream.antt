-- ===== src/Storage/Stream.antt =====
-- `std::fstream` over one binary file, as src/server/queue_message.hpp uses it: the bytes of the file,
-- the position that reading and writing share, and the state bits. A stream whose failbit is set
-- neither moves, reads nor writes until `clear`. The disk takes every byte that is written.
use mathlib.Core.List.{append-nil}
use mq_work.Common.{
  ℕ, ◌+◌, ◌-◌, ◌^◌, ◌≡◌, Bool, true, false, Option, none, some, List, ◌++◌, arith, leb,
  if◌then◌else◌, length, take, drop, replicate, length-append, take-length-append, take_all,
  drop_past, drop-add-append, drop-length-append, ◌<◌, ◌≤◌, length-drop,
}

pub record FileStream : Type 0 where
  pub contents : List ℕ
  pub pos : ℕ
  pub is_open : Bool
  pub failed : Bool

-- A stream opened for reading and writing on a file with these bytes.
abbrev pub opened : List ℕ → FileStream
opened bytes = record { contents = bytes; pos = 0; is_open = true; failed = false }

-- Bytes put over those from position `p`; a gap behind the end is filled with zeros.
unfoldable pub splice : ℕ → List ℕ → List ℕ → List ℕ
splice p bytes contents =
    take p contents
    ++ (replicate (p - length contents) 0 ++ (bytes ++ drop (p + length bytes) contents))

unfoldable pub clear : FileStream → FileStream
clear s = record s { failed = false }

-- `seekg(p, beg)`, `seekp(p, beg)`
unfoldable pub seek : ℕ → FileStream → FileStream
seek p s = if s.failed then s else record s { pos = p }

-- `seekp(0, end)`, `seekg(0, end)`
unfoldable pub seek_end : FileStream → FileStream
seek_end s = if s.failed then s else record s { pos = length s.contents }

-- `static_cast<uint64_t>(tellp())`: a failed stream answers -1.
unfoldable pub tell : FileStream → ℕ
tell s = if s.failed then 2 ^ 64 - 1 else s.pos

unfoldable pub write : List ℕ → FileStream → FileStream
write bytes s =
    if s.failed
    then s
    else record s { contents = splice s.pos bytes s.contents; pos = s.pos + length bytes }

-- `read(buf, n)`: `none` when fewer than `n` bytes are left, which sets failbit.
unfoldable pub read : ℕ → FileStream → Option (List ℕ) × FileStream
read n s =
    let rest = drop s.pos s.contents in
    if s.failed
    then (none, s)
    else if leb n (length rest)
    then (some (take n rest), record s { pos = s.pos + n })
    else (none, record s { pos = length s.contents; failed = true })

-- At the end of the file a write appends.
pub splice_end :
    (bytes contents : List ℕ) → splice (length contents) bytes contents ≡ contents ++ bytes
unfolding splice
splice_end bytes contents =
    let e : length contents - length contents ≡ 0 = omega arith in
    rw (
      take_all contents,
      e,
      drop_past (length contents + length bytes) contents (omega arith),
      append-nil bytes,
    )

-- A write over as many bytes replaces them.
pub splice_over :
    (before old new after : List ℕ)
    → length new ≡ length old
    → splice (length before) new (before ++ (old ++ after)) ≡ before ++ (new ++ after)
unfolding splice
splice_over before old new after h =
    let e : length before - length (before ++ (old ++ after)) ≡ 0 =
      omega (arith, length-append {0} before (old ++ after)) in
    rw (
      take-length-append before (old ++ after),
      e,
      drop-add-append before (old ++ after) (length new),
      h,
      drop-length-append old after,
    )

drop_there :
    (before bytes after : List ℕ) (s : FileStream)
    → s.contents ≡ before ++ (bytes ++ after)
    → s.pos ≡ length before
    → drop s.pos s.contents ≡ bytes ++ after
drop_there before bytes after s c p = rw (c, p, drop-length-append before (bytes ++ after))

-- A read of bytes that are there.
pub read_there :
    (before bytes after : List ℕ) (s : FileStream)
    → s.failed ≡ false
    → s.contents ≡ before ++ (bytes ++ after)
    → s.pos ≡ length before
    → read (length bytes) s ≡ (some bytes, record s { pos = s.pos + length bytes })
unfolding read
read_there before bytes after s f c p = ground (
  arith,
  drop_there before bytes after s c p,
  take-length-append bytes after,
  length-append {0} bytes after,
)

-- A read past the end sets failbit, and takes nothing.
pub read_past :
    (n : ℕ) (s : FileStream)
    → s.failed ≡ false
    → length s.contents < s.pos + n
    → s.pos ≤ length s.contents
    → read n s ≡ (none, record s { pos = length s.contents; failed = true })
unfolding read
read_past n s f h k = ground (arith, length-drop s.pos s.contents)
