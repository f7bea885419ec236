-- ===== src/Log/Attrs.antt =====
-- The attributes of log/slog that log/ and log/loghandler/ work on, and texts as the bytes of a Go
-- string. A LogValuer stands with what slog's Resolve makes of it, which is never a LogValuer.
use Prim.Native.Char.{code}
use qtfra.Common.{String, ℕ, Bool, true, false, List, [], ◌∷◌, ◌++◌}
use qtfra.Common.Tests.{Comparable, nat_beq, nat_comparable, if◌then◌else◌, beq_iff}
use qtfra.Common.{◌≡◌, refl, ap₂, arith}

-- A Go string.
abbrev pub Text : Type 0
Text = List ℕ

-- The bytes of a literal, which are the codes of its characters, since these are ASCII here.
abbrev pub literal : String → Text
literal String.[] = []
literal (String.◌∷◌ letter rest) = code letter ∷ literal rest

abbrev pub texts_beq : Text → Text → Bool
texts_beq [] [] = true
texts_beq [] (y ∷ ys) = false
texts_beq (x ∷ xs) [] = false
texts_beq (x ∷ xs) (y ∷ ys) = let rest = texts_beq xs ys in if nat_beq x y then rest else false

pub texts_beq_refl : (x : Text) → texts_beq x x ≡ true
texts_beq_refl [] = refl
texts_beq_refl (x ∷ xs) = ground (arith, texts_beq_refl xs, beq_iff x x)

pub texts_beq_only : (x y : Text) → texts_beq x y ≡ true → x ≡ y
texts_beq_only [] [] e = refl
texts_beq_only [] (y ∷ ys) e = absurd (ground arith)
texts_beq_only (x ∷ xs) [] e = absurd (ground arith)
texts_beq_only (x ∷ xs) (y ∷ ys) e =
    ap₂ ◌∷◌ (ground (arith, beq_iff x y)) (texts_beq_only xs ys (ground arith))

instance abbrev pub text_comparable : Comparable Text
text_comparable = record {
  same_only = texts_beq_only;
  same = texts_beq;
  same_refl = texts_beq_refl;
}

-- Value by its kind: a group, a time, any other value, or a LogValuer.
mutual
  pub data Value (V T : Type 0) : Type 0 where
    plain : V → Value V T
    moment : T → Value V T
    group : Attrs V T → Value V T
    valuer : V → Resolved V T → Value V T

  -- What Resolve returns.
  pub data Resolved (V T : Type 0) : Type 0 where
    to_plain : V → Resolved V T
    to_moment : T → Resolved V T
    to_group : Attrs V T → Resolved V T

  -- The attributes of a group.
  pub data Attrs (V T : Type 0) : Type 0 where
    nil : Attrs V T
    cons : Text → Value V T → Attrs V T → Attrs V T

-- Attr
pub record Attr (V T : Type 0) : Type 0 where
  pub key : Text
  pub value : Value V T

-- `strings.Join(xs, sep)`, and `bytes.Join`
abbrev pub join : Text → List Text → Text
join sep [] = []
join sep (x ∷ []) = x
join sep (x ∷ y ∷ xs) = x ++ (sep ++ join sep (y ∷ xs))
