-- ===== src/Web/Reads.antt =====
-- What `read_exact` and `write_exact` of the native messaging host transfer.
use portable_tls_ra.Base.{
  ℕ, zero, suc, ◌+◌, ◌-◌, ◌<◌, ◌≤◌, ◌≡◌, inl, inr, refl, ap, sym, ◌∙◌, true, false, some, List, [],
  ◌∷◌, ◌++◌, length, take, drop, leb, ◌==◌, append_assoc, append-nil, length-append,
  take-append-drop, length-drop, length-take, take-add, Option, Bool, Bool-cases, arith,
  take-append, drop-append,
}
use portable_tls_ra.Web.Host.{
  Input, chunk, read_error, ReadEnd, filled, ended, read_from, read_exact, Stdout, write_from,
}

-- The bytes that stdin brings before its first error.
abbrev pub contents : List Input → List ℕ
contents [] = []
contents (read_error ∷ rest) = []
contents (chunk bytes ∷ rest) = bytes ++ contents rest

-- There is no error among the pieces.
abbrev pub IsIntact : List Input → Type 0
IsIntact [] = Unit
IsIntact (read_error ∷ rest) = ⊥
IsIntact (chunk bytes ∷ rest) = IsIntact rest

-- What a read gives: if it fills the buffer, all bytes before the first error are in the buffer or left.
abbrev Keeps : ℕ → List ℕ → List Input → ReadEnd × List ℕ × List Input → Type 0
Keeps left got stdin r =
    r.0 ≡ filled → (got ++ contents stdin ≡ r.1 ++ contents r.2) × (length r.1 ≡ length got + left)

read_from-Keeps :
    (stdin : List Input) (left : ℕ) (got : List ℕ) → Keeps left got stdin (read_from stdin left got)
unfolding read_from
read_from-Keeps [] left got = elim (Bool-cases (left == 0)) [
  | inl none_left ↦ λ h. (refl, ground arith)
  | inr more ↦ rw (read_from, more) (λ h. cc)
]
read_from-Keeps (read_error ∷ rest) left got = elim (Bool-cases (left == 0)) [
  | inl none_left ↦ rw (read_from, none_left) (λ h. (refl, ground arith))
  | inr more ↦ rw (read_from, more) (λ h. cc)
]
read_from-Keeps (chunk bytes ∷ rest) left got = elim (Bool-cases (left == 0)) [
  | inl none_left ↦ rw (read_from, none_left) (λ h. (refl, ground arith))
  | inr more ↦ elim (Bool-cases (leb (length bytes) left)) [
    | inl whole ↦
        let ih = read_from-Keeps rest (left - length bytes) (got ++ bytes) in
        rw (read_from, more, whole)
          (λ h.
            let (kept, size) = ih h in
            (
              sym (append_assoc got bytes (contents rest)) ∙ kept,
              ground (arith, size, length-append got bytes),
            ))
    | inr part ↦
        rw (read_from, more, part)
          (λ h. (
            ap (λ t. got ++ (t ++ contents rest)) (sym (take-append-drop left bytes))
                ∙ ap (λ t. got ++ t)
                    (append_assoc (take left bytes) (drop left bytes) (contents rest))
                ∙ sym (append_assoc got (take left bytes) (drop left bytes ++ contents rest)),
            ground (arith, length-append got (take left bytes), length-take left bytes, part),
          ))
  ]
]

-- Enough bytes before the first error fill the buffer.
read_from_enough :
    (stdin : List Input) (left : ℕ) (got : List ℕ)
    → left ≤ length (contents stdin)
    → (read_from stdin left got).0 ≡ filled
unfolding read_from
read_from_enough [] left got enough = ground (arith, enough)
read_from_enough (read_error ∷ rest) left got enough =
    let zero' : (left == 0) ≡ true = ground (arith, enough) in rw (read_from, zero') refl
read_from_enough (chunk bytes ∷ rest) left got enough = elim (Bool-cases (left == 0)) [
  | inl none_left ↦ rw (read_from, none_left) refl
  | inr more ↦ elim (Bool-cases (leb (length bytes) left)) [
    | inl whole ↦
        let count = length-append bytes (contents rest) in
        rw (read_from, more, whole)
          (read_from_enough rest (left - length bytes) (got ++ bytes)
            (ground (arith, count, enough, whole)))
    | inr part ↦ rw (read_from, more, part) refl
  ]
]

-- Where there are enough bytes before the first error, a read takes the first ones, and leaves the others.
pub read_exact_enough :
    (stdin : List Input) (size : ℕ)
    → size ≤ length (contents stdin)
    → ((read_exact stdin size).0 ≡ filled)
      × ((read_exact stdin size).1 ≡ take size (contents stdin))
      × (contents (read_exact stdin size).2 ≡ drop size (contents stdin))
unfolding read_exact
read_exact_enough stdin size enough =
    let full = read_from_enough stdin size [] enough in
    let (kept, count) = read_from-Keeps stdin size [] full in
    let got = (read_from stdin size []).1 in
    let rest = contents (read_from stdin size []).2 in
    let count' : length got ≡ size = omega (arith, count) in
    (
      full,
      sym (take-append got rest size count') ∙ ap (take size) (sym kept),
      sym (drop-append got rest size count') ∙ ap (drop size) (sym kept),
    )

-- A read that fills the buffer has taken the first bytes, of which there were enough.
pub read_exact_filled :
    (stdin : List Input) (size : ℕ)
    → (read_exact stdin size).0 ≡ filled
    → (contents stdin ≡ (read_exact stdin size).1 ++ contents (read_exact stdin size).2)
      × (length (read_exact stdin size).1 ≡ size)
unfolding read_exact
read_exact_filled stdin size full =
    let (kept, count) = read_from-Keeps stdin size [] full in (kept, omega (arith, count))

-- Without an error in the input a read that is not filled reports the end of the file.
read_from_short :
    (stdin : List Input) (left : ℕ) (got : List ℕ)
    → IsIntact stdin
    → length (contents stdin) < left
    → (read_from stdin left got).0 ≡ ended
unfolding read_from
read_from_short [] left got ok short =
    let more : (left == 0) ≡ false = ground (arith, short) in rw (read_from, more) refl
read_from_short (read_error ∷ rest) left got ok short = absurd ok
read_from_short (chunk bytes ∷ rest) left got ok short =
    let count = length-append bytes (contents rest) in
    let more : (left == 0) ≡ false = ground (arith, short) in
    let whole : leb (length bytes) left ≡ true = ground (arith, short, count) in
    rw (read_from, more, whole)
      (read_from_short rest (left - length bytes) (got ++ bytes) ok (omega (arith, short, count)))

pub read_exact_short :
    (stdin : List Input) (size : ℕ)
    → IsIntact stdin
    → length (contents stdin) < size
    → (read_exact stdin size).0 ≡ ended
unfolding read_exact
read_exact_short stdin size ok short = read_from_short stdin size [] ok short

read_from-IsIntact :
    (stdin : List Input) (left : ℕ) (got : List ℕ)
    → IsIntact stdin
    → IsIntact (read_from stdin left got).2
unfolding read_from
read_from-IsIntact [] left got ok = tt
read_from-IsIntact (read_error ∷ rest) left got ok = absurd ok
read_from-IsIntact (chunk bytes ∷ rest) left got ok = elim (Bool-cases (left == 0)) [
  | inl none_left ↦ rw (read_from, none_left) ok
  | inr more ↦ elim (Bool-cases (leb (length bytes) left)) [
    | inl whole ↦
        rw (read_from, more, whole)
          (read_from-IsIntact rest (left - length bytes) (got ++ bytes) ok)
    | inr part ↦ rw (read_from, more, part) ok
  ]
]

pub read_exact-IsIntact :
    (stdin : List Input) (size : ℕ) → IsIntact stdin → IsIntact (read_exact stdin size).2
unfolding read_exact
read_exact-IsIntact stdin size ok = read_from-IsIntact stdin size [] ok

-- A write ends, and has put out a front of the buffer, the whole of it if it succeeds.
abbrev pub Wrote : List ℕ → List ℕ → Option (Bool × List ℕ) → Type 0
Wrote buf out r =
    (b : Bool) × (k : ℕ) × (r ≡ some (b, out ++ take k buf)) × (b ≡ true → take k buf ≡ buf)

pub write_from-Wrote :
    (calls : ℕ) (h : Stdout) (buf out : List ℕ)
    → length buf ≤ calls
    → Wrote buf out (write_from calls h buf out)
unfolding write_from
write_from-Wrote zero h [] out enough =
    (true, 0, ap (λ o. some (true, o)) (sym (append-nil out)), λ e. refl)
write_from-Wrote (suc calls) h [] out enough =
    (true, 0, ap (λ o. some (true, o)) (sym (append-nil out)), λ e. refl)
write_from-Wrote zero h (x ∷ buf) out enough = absurd (omega (arith, enough))
write_from-Wrote (suc calls) h (x ∷ buf) out enough =
    let all = x ∷ buf in
    let n = h.fwrite (length out) (suc (length buf)) in
    elim (Bool-cases (n == 0)) [
      | inl none_taken ↦ (
        false,
        0,
        rw (write_from, none_taken) (ap (λ o. some (false, o)) (sym (append-nil out))),
        λ e. cc,
      )
      | inr taken ↦
          let (b, k, r, whole) =
            write_from-Wrote calls h (drop n all) (out ++ take n all)
              (ground (arith, length-drop n all, enough, taken)) in
          (
            b,
            n + k,
            rw (write_from, taken)
                (r
                  ∙ ap (λ o. some (b, o))
                      (append_assoc out (take n all) (take k (drop n all))
                        ∙ ap (λ t. out ++ t) (take-add n k all))),
            λ e.
                sym (take-add n k all)
                ∙ ap (λ t. take n all ++ t) (whole e)
                ∙ take-append-drop n all,
          )
    ]
