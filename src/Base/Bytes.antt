-- ===== src/Base/Bytes.antt =====
-- Little-endian fields of a byte buffer. A buffer is a list of bytes; a read past its end gives 0.
use Prim.Native.Nat.{ℕ, ◌+◌, ◌*◌, ◌/◌, ◌%◌, ◌^◌, ◌<◌}
use mathlib.Core.List.{List, [], ◌∷◌, ◌++◌}
use mathlib.Core.Path.{◌≡◌, refl, ap, ◌∙◌, subst}
use native.Mathlib.Omega.{arith}
use ena.Base.Lists.{get_or, length, get_or-append_left, get_or-append_right}

unfoldable pub byte : List ℕ → ℕ → ℕ
byte b i = get_or b i 0 % 256

-- `le16_to_cpu` of the field at offset `o`
unfoldable pub le16 : List ℕ → ℕ → ℕ
unfolding byte
le16 b o = byte b o + byte b (o + 1) * 256

-- `le32_to_cpu` of the field at offset `o`
unfoldable pub le32 : List ℕ → ℕ → ℕ
unfolding byte
le32 b o = byte b o + byte b (o + 1) * 256 + byte b (o + 2) * 65536 + byte b (o + 3) * 16777216

-- The bytes of `cpu_to_le16` and `cpu_to_le32`
abbrev pub bytes16 : ℕ → List ℕ
bytes16 v = v % 256 ∷ v / 256 % 256 ∷ []

abbrev pub bytes32 : ℕ → List ℕ
bytes32 v = v % 256 ∷ v / 256 % 256 ∷ v / 65536 % 256 ∷ v / 16777216 % 256 ∷ []

pub byte-lt : (b : List ℕ) (i : ℕ) → byte b i < 256
unfolding byte
byte-lt b i = omega arith

pub le16-lt : (b : List ℕ) (o : ℕ) → le16 b o < 2 ^ 16
unfolding le16
le16-lt b o = omega arith

pub le32-lt : (b : List ℕ) (o : ℕ) → le32 b o < 2 ^ 32
unfolding le32
le32-lt b o = omega arith

-- A field that was written is read back.
pub le16-bytes16 : (v : ℕ) (rest : List ℕ) → v < 2 ^ 16 → le16 (bytes16 v ++ rest) 0 ≡ v
unfolding le16 byte
le16-bytes16 v rest h = omega (arith, h)

-- A field whose bytes stand somewhere in a buffer
pub le16_at :
    (b : List ℕ) (o v : ℕ)
    → get_or b o 0 ≡ v % 256
    → get_or b (o + 1) 0 ≡ v / 256 % 256
    → le16 b o ≡ v % 2 ^ 16
unfolding le16 byte
le16_at b o v p q = omega (arith, p, q)

pub le32_at :
    (b : List ℕ) (o v : ℕ)
    → get_or b o 0 ≡ v % 256
    → get_or b (o + 1) 0 ≡ v / 256 % 256
    → get_or b (o + 2) 0 ≡ v / 65536 % 256
    → get_or b (o + 3) 0 ≡ v / 16777216 % 256
    → le32 b o ≡ v % 2 ^ 32
unfolding le32 byte
le32_at b o v p q r s = omega (arith, p, q, r, s)

-- A field whose bytes are those of a written one
pub le32_of :
    (b : List ℕ) (o v : ℕ)
    → ((k : ℕ) → k < 4 → get_or b (o + k) 0 ≡ get_or (bytes32 v) k 0)
    → le32 b o ≡ v % 2 ^ 32
le32_of b o v at =
    le32_at b o v
      (subst (λ j. get_or b j 0 ≡ v % 256) (let e : o + 0 ≡ o = omega arith in e)
        (at 0 (omega arith)))
      (at 1 (omega arith)) (at 2 (omega arith)) (at 3 (omega arith))

pub le16_of :
    (b : List ℕ) (o v : ℕ)
    → ((k : ℕ) → k < 2 → get_or b (o + k) 0 ≡ get_or (bytes16 v) k 0)
    → le16 b o ≡ v % 2 ^ 16
le16_of b o v at =
    le16_at b o v
      (subst (λ j. get_or b j 0 ≡ v % 256) (let e : o + 0 ≡ o = omega arith in e)
        (at 0 (omega arith)))
      (at 1 (omega arith))

-- A field behind a prefix, and one inside it
byte-append_right : (xs b : List ℕ) (i j : ℕ) → j ≡ length xs + i → byte (xs ++ b) j ≡ byte b i
unfolding byte
byte-append_right xs b i j e =
    ap (λ k. get_or (xs ++ b) k 0 % 256) e ∙ ap (λ k. k % 256) (get_or-append_right xs b i 0)

byte-append_left : (xs b : List ℕ) (i : ℕ) → i < length xs → byte (xs ++ b) i ≡ byte xs i
unfolding byte
byte-append_left xs b i lt = ap (λ k. k % 256) (get_or-append_left xs b i 0 lt)

pub le32-append_right : (xs b : List ℕ) (o : ℕ) → le32 (xs ++ b) (length xs + o) ≡ le32 b o
unfolding le32
le32-append_right xs b o = omega (
  arith,
  byte-append_right xs b o (length xs + o) refl,
  byte-append_right xs b (o + 1) (length xs + o + 1) (omega arith),
  byte-append_right xs b (o + 2) (length xs + o + 2) (omega arith),
  byte-append_right xs b (o + 3) (length xs + o + 3) (omega arith),
)

pub le16-append_right : (xs b : List ℕ) (o : ℕ) → le16 (xs ++ b) (length xs + o) ≡ le16 b o
unfolding le16
le16-append_right xs b o = omega (
  arith,
  byte-append_right xs b o (length xs + o) refl,
  byte-append_right xs b (o + 1) (length xs + o + 1) (omega arith),
)

pub le16-append_left : (xs b : List ℕ) (o : ℕ) → o + 1 < length xs → le16 (xs ++ b) o ≡ le16 xs o
unfolding le16
le16-append_left xs b o lt =
    omega (arith, byte-append_left xs b o (omega (arith, lt)), byte-append_left xs b (o + 1) lt)
