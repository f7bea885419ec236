-- ===== src/Buf/Pool.antt =====
-- buf/pool.go: a pool of buffers of one size. A sync.Pool hands out any buffer that it holds, by a
-- choice, or a new one; a pool of large buffers holds none and makes one each time.
pub mod Sizes
mod Tests
use qtfra.Common.{
  ℕ, zero, suc, ◌+◌, ◌^◌, Bool, true, false, not, ◌&&◌, ◌||◌, List, [], ◌∷◌, Option, none, some,
}
use qtfra.Common.Tests.{nat_beq, if◌then◌else◌}
use qtfra.Common.Lists.{replicate}
use qtfra.Common.Words.{is_neg, lt_int}
use qtfra.Common.Outcomes.{Outcome, returns, panics, ◌>>=◌}
use qtfra.Ex.Error.{Error}
use qtfra.Buf.Slice.{Slice, make_bytes}
use qtfra.Buf.Alloc.{Allocator}
use qtfra.Buf.Buffer.{Buffer, new_size, as_buffer, reset, resize}

pub record Pool : Type 0 where
  pub size : ℕ
  pub held : Option (List Buffer)

abbrev pub max_buffer_size : ℕ
max_buffer_size = 2 ^ 16

-- NewPool
pub new_pool : ℕ → Outcome Pool
new_pool size =
    if is_neg size || nat_beq size 0
    then panics
    else returns
        (record { size = size; held = (if lt_int size max_buffer_size then some [] else none) })

-- poolIsValid
abbrev pub is_valid : Pool → Bool
is_valid p = elim p.held [ none ↦ false | some held ↦ lt_int p.size max_buffer_size ]

-- `As(make([]byte, size))`
abbrev pub made : ℕ → Outcome Buffer
made size = make_bytes size >>= λ s. returns (as_buffer (some s))

-- A held buffer by its place, and the others.
abbrev pub pick : List Buffer → ℕ → Option Buffer × List Buffer
pick [] place = (none, [])
pick (b ∷ held) zero = (some b, held)
pick (b ∷ held) (suc place) = let (found, rest) = pick held place in (found, b ∷ rest)

-- What a Pool's Get returns with the pool and the allocator after it.
abbrev pub Got : Type 0
Got = Outcome (Buffer × Pool × Allocator)

-- What is made of the buffer that the sync.Pool found, if it found one.
abbrev pub reset_or_new : Option Buffer × List Buffer → Pool → Allocator → ℕ → Got
reset_or_new (some b, rest) p alloc choice = returns (reset b, record p { held = some rest }, alloc)
reset_or_new (none, rest) p alloc choice = new_size alloc choice p.size >>= λ made.
    returns (reset made.0, record p { held = some rest }, made.1)

abbrev pub get_held : Option (List Buffer) → Pool → Allocator → ℕ → ℕ → Got
get_held none p alloc place choice = made p.size >>= λ b. returns (b, p, alloc)
get_held (some held) p alloc place choice = reset_or_new (pick held place) p alloc choice

-- (*Pool).Get
unfoldable pub get : Pool → Allocator → ℕ → ℕ → Got
get p alloc place choice =
    if is_valid p
    then get_held p.held p alloc place choice
    else (made p.size >>= λ b. returns (b, p, alloc))

-- ex.Must
abbrev pub must {ℓ} : {A : Type ℓ} → Option Error → A → Outcome A
must none a = returns a
must (some err) a = panics

-- (*Pool).GetSize
unfoldable pub get_size : ℕ → Pool → Allocator → ℕ → ℕ → Got
get_size size p alloc place choice =
    if not (lt_int size p.size) && is_valid p
    then (do
      got ← get p alloc place choice
      resized ← resize size got.0
      b ← must resized.0 resized.1
      returns (b, got.1, got.2))
    else (made size >>= λ b. returns (b, p, alloc))

-- (*Pool).Put
unfoldable pub put : Buffer → Pool → Pool
put x p =
    if not (is_valid p) || lt_int p.size x.size || lt_int 0 x.ref
    then p
    else (elim p.held [ none ↦ p | some held ↦ record p { held = some (x ∷ held) } ])
