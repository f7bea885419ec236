-- ===== src/Buf/Buffer/Valid.antt =====
-- The well-formed buffers: the two indices in order, within the size, and the size within the slice.
use qtfra.Common.{ℕ, ◌+◌, ◌-◌, ◌≤◌, ◌≡◌, List, ◌++◌, Option, none, some, refl, ap, ◌∙◌, arith}
use qtfra.Common.Lists.{length, window, overwrite}
use qtfra.Common.Windows.{length-overwrite, length-window, window-overwrite}
use qtfra.Common.Words.{max_int, add_int}
use qtfra.Common.Outcomes.{returns}
use qtfra.Buf.Slice.{Slice, len_of, arr_of, cap_of}
use qtfra.Buf.Buffer.{Buffer, append, put_bytes, bytes_of, free_bytes}

pub record IsValid (b : Buffer) : Type 0 where
  pub read_le_write : b.r ≤ b.w
  pub write_le_size : b.w ≤ b.size
  pub size_le_len : b.size ≤ len_of b.bytes
  pub len_le_cap : len_of b.bytes ≤ cap_of b.bytes
  pub cap_le_max : cap_of b.bytes ≤ max_int

-- The bytes written and not yet read.
abbrev pub contents : Buffer → List ℕ
contents b = window (arr_of b.bytes) b.r b.w

pub length-contents : {b : Buffer} → IsValid b → length (contents b) ≡ b.w - b.r
length-contents {b} v = length-window (arr_of b.bytes) b.r b.w (omega arith)

pub bytes_of-valid : {b : Buffer} → IsValid b → bytes_of b ≡ returns (contents b)
bytes_of-valid v = ground arith

pub free_bytes-valid :
    {b : Buffer} → IsValid b → free_bytes b ≡ returns (window (arr_of b.bytes) b.w b.size)
free_bytes-valid v = ground arith

pub length-free_bytes :
    {b : Buffer} → IsValid b → length (window (arr_of b.bytes) b.w b.size) ≡ b.size - b.w
length-free_bytes {b} v = length-window (arr_of b.bytes) b.w b.size (omega arith)

-- Appending what fits keeps the buffer well-formed and puts the bytes behind its contents.
arr-put_bytes :
    (d : Option Slice) (i : ℕ) (bs : List ℕ)
    → (arr_of (put_bytes d i bs) ≡ overwrite (arr_of d) i bs)
      × (len_of (put_bytes d i bs) ≡ len_of d)
arr-put_bytes none i bs = (refl, refl)
arr-put_bytes (some s) i bs = (refl, refl)

pub append-IsValid :
    {b : Buffer} (bs : List ℕ)
    → IsValid b
    → b.w + length bs ≤ b.size
    → IsValid (append b bs)
      × (contents (append b bs) ≡ contents b ++ bs)
      × ((append b bs).w ≡ b.w + length bs)
append-IsValid {b} bs v h = (fields, text, moved)
  where
    d : Option Slice
    d = put_bytes b.bytes b.w bs

    parts : (arr_of d ≡ overwrite (arr_of b.bytes) b.w bs) × (len_of d ≡ len_of b.bytes)
    parts = arr-put_bytes b.bytes b.w bs

    same_cap : cap_of d ≡ cap_of b.bytes
    same_cap = ap length parts.0 ∙ length-overwrite (arr_of b.bytes) b.w bs

    moved : add_int b.w (length bs) ≡ b.w + length bs
    moved = omega arith

    fields : IsValid (append b bs)
    fields = omega (arith, same_cap, parts.1)

    text : contents (append b bs) ≡ contents b ++ bs
    text =
        rw (parts.0, moved)
          (window-overwrite (arr_of b.bytes) bs b.r b.w v.read_le_write (omega arith))
