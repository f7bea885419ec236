-- ===== src/Iolib/Closers.antt =====
-- enhancements/iolib/close.go and underlay/underlays.go: how a value is closed that may have no Close
-- of its own. A value is told by a number; it may be a Closer, and may name a writer or a reader
-- below it.
pub mod Chains
mod Tests
use qtfra.Common.{ℕ, Bool, true, false, List, [], ◌∷◌, Option, none, some}

mutual
  pub data Thing : Type 0 where
    thing : ℕ → Bool → Below → Thing

  pub data Below : Type 0 where
    nothing : Below
    writer_below reader_below : Thing → Below
    both_below : Thing → Thing → Below

-- Close: the value whose own Close is called, if there is one. A Closer is closed itself; a writer
-- below goes before a reader below.
unfoldable pub close_any : Thing → Option ℕ
close_any (thing n true below) = some n
close_any (thing n false nothing) = none
close_any (thing n false (writer_below w)) = close_any w
close_any (thing n false (reader_below r)) = close_any r
close_any (thing n false (both_below w r)) = close_any w

-- readCloser: the value whose Close the ReadCloser calls, if it is no NopReadCloser. Reads go to the
-- original.
unfoldable pub read_closer : Thing → Option ℕ
read_closer (thing n true below) = some n
read_closer (thing n false nothing) = none
read_closer (thing n false (writer_below w)) = none
read_closer (thing n false (reader_below r)) = read_closer r
read_closer (thing n false (both_below w r)) = read_closer r

-- writeCloser
unfoldable pub write_closer : Thing → Option ℕ
write_closer (thing n true below) = some n
write_closer (thing n false nothing) = none
write_closer (thing n false (writer_below w)) = write_closer w
write_closer (thing n false (reader_below r)) = none
write_closer (thing n false (both_below w r)) = write_closer w

-- FindUnderlayReaderDeep, of values that are all readers: the last one of the chain.
unfoldable pub find_underlay_reader_deep : Thing → ℕ
find_underlay_reader_deep (thing n closer nothing) = n
find_underlay_reader_deep (thing n closer (writer_below w)) = n
find_underlay_reader_deep (thing n closer (reader_below r)) = find_underlay_reader_deep r
find_underlay_reader_deep (thing n closer (both_below w r)) = find_underlay_reader_deep r

-- FindUnderlayWriterDeep, of values that are all writers.
unfoldable pub find_underlay_writer_deep : Thing → ℕ
find_underlay_writer_deep (thing n closer nothing) = n
find_underlay_writer_deep (thing n closer (writer_below w)) = find_underlay_writer_deep w
find_underlay_writer_deep (thing n closer (reader_below r)) = n
find_underlay_writer_deep (thing n closer (both_below w r)) = find_underlay_writer_deep w
