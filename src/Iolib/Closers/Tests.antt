-- ===== src/Iolib/Closers/Tests.antt =====
-- A reader over a file.
use qtfra.Common.{◌≡◌, true, false, some, refl}
use qtfra.Iolib.Closers.{Thing, thing, nothing, reader_below, close_any, read_closer, write_closer}
use qtfra.Iolib.Closers.Chains.{readers, writers, first_closer, closers_lem}

abbrev over_file : Thing
over_file = thing 1 false (reader_below (thing 2 true nothing))

closes_file : read_closer over_file ≡ some 2
unfolding read_closer
closes_file = refl

over_file_closed :
    (read_closer over_file ≡ first_closer (readers over_file))
    × (write_closer over_file ≡ first_closer (writers over_file))
    × (close_any over_file ≡ first_closer (readers over_file))
over_file_closed = closers_lem over_file over_file tt
