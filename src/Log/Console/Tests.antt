-- ===== src/Log/Console/Tests.antt =====
-- A handler with a group, a time and an entry of metadata, over a writer that takes two bytes at most
-- in a call.
use mathlib.Core.List.{reverse}
use qtfra.Common.{ℕ, ◌≡◌, true, List, [], ◌∷◌, ◌++◌, none, some, refl, arith, min}
use qtfra.Common.Tests.{if◌then◌else◌, leb, nat_comparable}
use qtfra.Common.Lists.{length, take}
use qtfra.Ex.Error.{leaf, short_write}
use qtfra.Buf.Alloc.{Allocator}
use qtfra.Buf.Alloc.Safety.{IsStocked}
use qtfra.Buf.Buffer.Stream.{WriteCall}
use qtfra.Iolib.BufWriter.Ordered.{Honest}
use qtfra.Log.Attrs.{
  Text, literal, Value, Attr, plain, moment, group, valuer, nil, cons, text_comparable,
}
use qtfra.Log.Metadata.{metadata_key, split_metadata}
use qtfra.Log.Metadata.Splits.{Split, split_metadata-Split}
use qtfra.Log.Console.State.{is_blank}
use qtfra.Log.Console.Handler.{ConsoleHandler, Record, with_attrs}
use qtfra.Log.Console.Handle.{Outside, handle}
use qtfra.Log.Console.Rendered.{line, attr_text}
use qtfra.Log.Console.Entries.{Merged}
use qtfra.Log.Console.Clones.{with_attrs-Merged}
use qtfra.Log.Console.Handled.{Handled, handle-Handled}

pairs : WriteCall (List ℕ)
pairs kept bs = (
  min 2 (length bs),
  (if leb (length bs) 2 then none else some (leaf short_write)),
  kept ++ take (min 2 (length bs)) bs,
)

abbrev all_of : List ℕ → List ℕ
all_of kept = kept

pairs-Honest : Honest pairs all_of
unfolding pairs
pairs-Honest = record {
  write_le = λ s bs. omega arith;
  logs = λ s bs. refl;
  all_or_error = λ s bs e. ground arith;
}

-- Values are texts, and times are texts that format as they are.
abbrev value_text : Value Text Text → Text
value_text (plain v) = v
value_text (moment t) = t
value_text (group attrs) = literal "[]"
value_text (valuer v r) = v

abbrev around : Outside Text Text
around = record {
  string_of = value_text;
  decimal = λ n. literal "1";
  debug_enabled = true;
  now = literal "now";
  is_zero = is_blank;
  entry_failed = λ i m. "entry";
}

abbrev named_entry : Attr Text Text
named_entry = record { key = metadata_key (literal "n"); value = plain (literal "conn") }

abbrev old_entry : Attr Text Text
old_entry = record { key = literal "n"; value = plain (literal "old") }

abbrev plain_attr : Attr Text Text
plain_attr = record { key = literal "k"; value = plain (literal "v") }

abbrev grouped : ConsoleHandler Text Text
grouped = record {
  level = 0;
  source_level = 8;
  enable_time = true;
  time_format = λ t. t;
  level_format = λ l. literal "INFO";
  group_prefix = literal "g";
  pre_formated_attr = literal "a=1";
  metadata = old_entry ∷ [];
}

abbrev one_record : Record Text Text
one_record = record {
  time = [];
  level = 8;
  message = literal "hello";
  attrs =
      plain_attr
      ∷ record { key = []; value = group (cons (literal "x") (plain (literal "two words")) nil) }
      ∷ [];
  source = some (record { file = literal "f.go"; line = 1; function = literal "main" });
}

abbrev no_pools : Allocator
no_pools = record { buffers = λ index. [] }

no_pools-IsStocked : IsStocked no_pools
no_pools-IsStocked index = tt

abbrev rounds : ℕ
rounds = 1671269

the_line :
    line around grouped one_record
    ≡ literal "now INFO [old] hello a=1 g.k=v   g.!BADKEY.x=`two words` \nCaller: f.go:1 main \n"
unfolding attr_text
the_line = refl

handle-Handled_example :
    Handled pairs all_of rounds around grouped one_record []
      (handle pairs rounds around grouped no_pools 0 one_record [])
unfolding attr_text
handle-Handled_example =
    handle-Handled pairs all_of rounds around grouped pairs-Honest no_pools 0 one_record []
      no_pools-IsStocked (omega arith) (omega arith)

abbrev given : List (Attr Text Text)
given = named_entry ∷ plain_attr ∷ []

split_metadata-Split_example : Split given (split_metadata given).0 (split_metadata given).1
split_metadata-Split_example = split_metadata-Split given

with_attrs-Merged_example :
    Merged grouped.metadata
      (reverse (split_metadata given).0)
      (with_attrs value_text given grouped).metadata
with_attrs-Merged_example = with_attrs-Merged value_text given grouped (refl, tt)
