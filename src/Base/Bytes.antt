-- ===== src/Base/Bytes.antt =====
-- Byte strings, and what `strcmp`, `memcmp` and `strncmp` decide of them. A C string is the list
-- of its bytes without the terminating NUL.
use Prim.Native.Nat.{ℕ, zero, suc}
use mathlib.Core.Path.{◌≡◌, refl}
use mathlib.Core.Logic.{◌↔◌, ◌≢◌}
use mathlib.Core.Bool.{Bool, true, false, ◌&&◌}
use mathlib.Core.List.{List, [], ◌∷◌}
use native.Mathlib.Omega.{arith}
use portable_tls_ra.Base.Tests.{◌==◌}
use portable_tls_ra.Base.Lists.{take, All}

abbrev pub Str : Type 0
Str = List ℕ

-- The text holds no NUL.
abbrev pub IsText : List ℕ → Type 0
IsText bytes = All (λ b. b ≢ 0) bytes

-- The text as a test, by which a concrete string is seen to be one.
abbrev pub is_text : List ℕ → Bool
is_text [] = true
is_text (b ∷ bs) = elim b [ zero ↦ false | suc c ↦ is_text bs ]

pub is_text-IsText : (s : List ℕ) → is_text s ≡ true → IsText s
is_text-IsText [] h = tt
is_text-IsText (zero ∷ bs) h = cc
is_text-IsText (suc c ∷ bs) h = ((λ e. omega (arith, e)), is_text-IsText bs h)

-- `strcmp(a, b) == 0`
unfoldable pub bytes_eq : List ℕ → List ℕ → Bool
bytes_eq [] [] = true
bytes_eq [] (b ∷ bs) = false
bytes_eq (a ∷ as') [] = false
bytes_eq (a ∷ as') (b ∷ bs) = a == b && bytes_eq as' bs

pub bytes_eq_refl : (a : List ℕ) → bytes_eq a a ≡ true
unfolding bytes_eq
bytes_eq_refl [] = refl
bytes_eq_refl (x ∷ xs) = ground (arith, bytes_eq_refl xs)

bytes_eq_sound : (a b : List ℕ) → bytes_eq a b ≡ true → a ≡ b
unfolding bytes_eq
bytes_eq_sound [] [] h = refl
bytes_eq_sound [] (b ∷ bs) h = cc
bytes_eq_sound (a ∷ as') [] h = cc
bytes_eq_sound (a ∷ as') (b ∷ bs) h = ground (arith, bytes_eq_sound as' bs)

pub bytes_eq_iff : (a b : List ℕ) → (bytes_eq a b ≡ true) ↔ (a ≡ b)
bytes_eq_iff a b = (bytes_eq_sound a b, λ e. rw e (bytes_eq_refl b))

pub bytes_eq-false : (a b : List ℕ) → a ≢ b → bytes_eq a b ≡ false
bytes_eq-false a b n = ground (arith, bytes_eq_sound a b)

-- `memcmp(a, b, n) == 0`
unfoldable pub memcmp_eq : ℕ → List ℕ → List ℕ → Bool
memcmp_eq n a b = bytes_eq (take n a) (take n b)

-- `strncmp(lit, key, n) == 0`, where `key` holds `n` bytes and `lit` ends in a NUL: the test stops
-- after `n` bytes, so it passes for every key that is a prefix of `lit`.
unfoldable pub strncmp_eq : Str → ℕ → List ℕ → Bool
strncmp_eq lit zero key = true
strncmp_eq lit (suc n) [] = true
strncmp_eq [] (suc n) (k ∷ key) = k == 0
strncmp_eq (c ∷ lit) (suc n) (k ∷ key) = c == k && strncmp_eq lit n key
