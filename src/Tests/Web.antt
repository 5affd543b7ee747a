-- ===== src/Tests/Web.antt =====
-- Two messages in pieces, and an input with an error.
use portable_tls_ra.Base.{
  ℕ, suc, ◌≡◌, refl, true, some, List, [], ◌∷◌, ◌++◌, length, arith, le_bytes,
}
use portable_tls_ra.Web.Host.{Input, chunk, read_error, Stdout, Exit, success, echo_from}
use portable_tls_ra.Web.Reads.{contents}
use portable_tls_ra.Web.Echoes.{echo_from_prefix}
use portable_tls_ra.Web.Frames.{IsOpen, echo_from-echoes}

-- A stdout that takes one byte at a time.
abbrev slow : Stdout
slow = record { fwrite = λ at k. 1; fflush = λ at. true }

slow-IsOpen : IsOpen slow
slow-IsOpen = record { takes = λ at k more. omega arith; flushes = λ at. refl }

abbrev pieces : List Input
pieces =
    chunk (2 ∷ 0 ∷ 0 ∷ []) ∷ chunk (0 ∷ 7 ∷ []) ∷ chunk (8 ∷ 1 ∷ 0 ∷ 0 ∷ 0 ∷ 9 ∷ 5 ∷ 5 ∷ []) ∷ []

echo_from-echoes_example :
    echo_from (suc (length (contents pieces))) slow pieces []
    ≡ some (success, 2 ∷ 0 ∷ 0 ∷ 0 ∷ 7 ∷ 8 ∷ 1 ∷ 0 ∷ 0 ∷ 0 ∷ 9 ∷ [])
unfolding le_bytes
echo_from-echoes_example =
    echo_from-echoes ((7 ∷ 8 ∷ []) ∷ (9 ∷ []) ∷ []) slow pieces (5 ∷ 5 ∷ []) slow-IsOpen
      ((omega arith, omega arith), ((omega arith, omega arith), tt)) tt refl (omega arith)

abbrev broken : List Input
broken = chunk (1 ∷ 0 ∷ 0 ∷ 0 ∷ 9 ∷ 1 ∷ []) ∷ read_error ∷ []

echo_from_prefix_example :
    (e : Exit) × (out : List ℕ) × (left : List ℕ) × (echo_from 7 slow broken [] ≡ some (e, out))
    × (1 ∷ 0 ∷ 0 ∷ 0 ∷ 9 ∷ 1 ∷ [] ≡ out ++ left)
echo_from_prefix_example = echo_from_prefix slow broken
