-- ===== src/Base/Words.antt =====
-- Little-endian words, and reading a buffer from the front.
use Prim.Native.Nat.{ℕ, zero, suc, ◌+◌, ◌*◌, ◌/◌, ◌%◌, ◌^◌, ◌<◌}
use mathlib.Core.Path.{◌≡◌, refl}
use mathlib.Core.List.{List, [], ◌∷◌, ◌++◌}
use native.Mathlib.Omega.{arith}
use portable_tls_ra.Base.Lists.{length, take, drop, take-append, drop-append, length-append}

-- The `n` bytes of a word.
unfoldable pub le_bytes : ℕ → ℕ → List ℕ
le_bytes zero v = []
le_bytes (suc n) v = (v % 256) ∷ le_bytes n (v / 256)

unfoldable pub le_word : List ℕ → ℕ
le_word [] = 0
le_word (b ∷ bs) = b + 256 * le_word bs

-- The word has `n` bytes.
abbrev pub Fits : ℕ → ℕ → Type 0
Fits zero v = v ≡ 0
Fits (suc n) v = Fits n (v / 256)

pub le_word-le_bytes : (n v : ℕ) → Fits n v → le_word (le_bytes n v) ≡ v
unfolding le_word le_bytes
le_word-le_bytes zero v h = omega arith
le_word-le_bytes (suc n) v h = omega (arith, le_word-le_bytes n (v / 256) h)

pub length-le_bytes : (n v : ℕ) → length (le_bytes n v) ≡ n
unfolding le_bytes
length-le_bytes zero v = refl
length-le_bytes (suc n) v = omega (arith, length-le_bytes n (v / 256))

pub word16-Fits : (v : ℕ) → v < 2 ^ 16 → Fits 2 v
word16-Fits v h = omega arith

pub word32-Fits : (v : ℕ) → v < 2 ^ 32 → Fits 4 v
word32-Fits v h = omega arith

pub word64-Fits : (v : ℕ) → v < 2 ^ 64 → Fits 8 v
word64-Fits v h = omega arith

-- Reading a word, or some bytes, and the rest of the buffer.
abbrev pub next_word : ℕ → List ℕ → ℕ × List ℕ
next_word n bs = (le_word (take n bs), drop n bs)

abbrev pub next_bytes : ℕ → List ℕ → List ℕ × List ℕ
next_bytes n bs = (take n bs, drop n bs)

-- Words at the front of a buffer are read back, and leave what follows.
pub le_word-take :
    (n v : ℕ) → Fits n v → (rest : List ℕ) → le_word (take n (le_bytes n v ++ rest)) ≡ v
le_word-take n v h rest =
    rw (take-append (le_bytes n v) rest n (length-le_bytes n v)) (le_word-le_bytes n v h)

pub drop-le_bytes : (n v : ℕ) (rest : List ℕ) → drop n (le_bytes n v ++ rest) ≡ rest
drop-le_bytes n v rest = drop-append (le_bytes n v) rest n (length-le_bytes n v)

pub length-le_bytes-append :
    (n v : ℕ) (rest : List ℕ) → length (le_bytes n v ++ rest) ≡ n + length rest
length-le_bytes-append n v rest =
    omega (arith, length-append (le_bytes n v) rest, length-le_bytes n v)
