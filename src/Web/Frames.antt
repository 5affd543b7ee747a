-- ===== src/Web/Frames.antt =====
-- What the native messaging host echoes.
use portable_tls_ra.Base.{
  ℕ, zero, suc, ◌<◌, ◌≤◌, ◌≡◌, refl, ap, sym, ◌∙◌, true, false, ◌||◌, none, some, List, [], ◌∷◌,
  ◌++◌, length, take, drop, ltb, ◌==◌, append_assoc, append-nil, length-append, length-drop,
  take-append-drop, arith, take-append, drop-append, le_bytes, le_word, All, length-le_bytes,
  le_word-le_bytes, word32-Fits,
}
use portable_tls_ra.Web.Host.{
  Input, read_exact, Stdout, write_from, write_exact, max_echo_message, success, echo, echo_round,
  echo_from,
}
use portable_tls_ra.Web.Reads.{
  contents, IsIntact, read_exact_enough, read_exact_short, read_exact-IsIntact,
}

-- Every call of `fwrite` takes something, and `fflush` succeeds.
pub record IsOpen (h : Stdout) : Type 0 where
  pub takes : (at k : ℕ) → 0 < k → 0 < h.fwrite at k
  pub flushes : (at : ℕ) → h.fflush at ≡ true

write_from_all :
    (calls : ℕ) (h : Stdout) (buf out : List ℕ)
    → IsOpen h
    → length buf ≤ calls
    → write_from calls h buf out ≡ some (true, out ++ buf)
unfolding write_from
write_from_all zero h [] out ok enough = ap (λ o. some (true, o)) (sym (append-nil out))
write_from_all (suc calls) h [] out ok enough = ap (λ o. some (true, o)) (sym (append-nil out))
write_from_all zero h (x ∷ buf) out ok enough = absurd (omega (arith, enough))
write_from_all (suc calls) h (x ∷ buf) out ok enough =
    let all = x ∷ buf in
    let n = h.fwrite (length out) (suc (length buf)) in
    let some_taken = ok.takes (length out) (suc (length buf)) (omega arith) in
    let taken : (n == 0) ≡ false = ground (arith, some_taken) in
    let rest =
      write_from_all calls h (drop n all) (out ++ take n all) ok
        (omega (arith, length-drop n all, enough, some_taken)) in
    rw (write_from, taken)
      (rest
        ∙ ap (λ o. some (true, o))
            (append_assoc out (take n all) (drop n all)
              ∙ ap (λ t. out ++ t) (take-append-drop n all)))

write_exact_all :
    (h : Stdout) (buf out : List ℕ) → IsOpen h → write_exact h buf out ≡ some (true, out ++ buf)
unfolding write_exact
write_exact_all h buf out ok = write_from_all (length buf) h buf out ok (omega arith)

echo_all :
    (h : Stdout) (head message out : List ℕ)
    → IsOpen h
    → echo h head message out ≡ some (none, out ++ (head ++ message))
unfolding echo
echo_all h head message out ok =
    let w1 = write_exact_all h head out ok in
    let w2 = write_exact_all h message (out ++ head) ok in
    let flushed = ok.flushes (length ((out ++ head) ++ message)) in
    rw (echo, w1, w2, flushed) (ap (λ o. some (none, o)) (append_assoc out head message))

-- A message behind its length.
abbrev pub frame : List ℕ → List ℕ
frame message = le_bytes 4 (length message) ++ message

abbrev pub frames : List (List ℕ) → List ℕ
frames [] = []
frames (message ∷ ms) = frame message ++ frames ms

abbrev pub IsMessage : List ℕ → Type 0
IsMessage message = (0 < length message) × (length message ≤ max_echo_message)

echo_round-frame :
    (h : Stdout) (stdin : List Input) (message rest out : List ℕ)
    → IsOpen h
    → IsMessage message
    → IsIntact stdin
    → contents stdin ≡ frame message ++ rest
    → (stdin' : List Input) × (echo_round h stdin out ≡ some (none, out ++ frame message, stdin'))
      × (contents stdin' ≡ rest)
      × IsIntact stdin'
unfolding echo_round
echo_round-frame h stdin message rest out ok (more, fits) intact has =
    let word = le_bytes 4 (length message) in
    let four : length word ≡ 4 = length-le_bytes 4 (length message) in
    let has' : contents stdin ≡ word ++ (message ++ rest) = has ∙ append_assoc word message rest in
    let (full1, head, left1) =
      read_exact_enough stdin 4
        (omega (arith, ap length has', length-append word (message ++ rest), four)) in
    let stdin1 = (read_exact stdin 4).2 in
    let head' : (read_exact stdin 4).1 ≡ word =
      head ∙ ap (take 4) has' ∙ take-append word (message ++ rest) 4 four in
    let left1' : contents stdin1 ≡ message ++ rest =
      left1 ∙ ap (drop 4) has' ∙ drop-append word (message ++ rest) 4 four in
    let len : le_word word ≡ length message =
      le_word-le_bytes 4 (length message) (word32-Fits (length message) (omega (arith, fits))) in
    let (full2, body, left2) =
      read_exact_enough stdin1 (length message)
        (omega (arith, ap length left1', length-append message rest)) in
    let body' : (read_exact stdin1 (length message)).1 ≡ message =
      body ∙ ap (take (length message)) left1' ∙ take-append message rest (length message) refl in
    let right : (length message == 0 || ltb max_echo_message (length message)) ≡ false =
      ground (arith, more, fits) in
    (
      (read_exact stdin1 (length message)).2,
      rw
          (
            echo_round,
            full1,
            head',
            len,
            right,
            full2,
            head',
            len,
            body',
            echo_all h word message out ok,
            head',
            len,
          )
          refl,
      left2 ∙ ap (drop (length message)) left1' ∙ drop-append message rest (length message) refl,
      read_exact-IsIntact stdin1 (length message) (read_exact-IsIntact stdin 4 intact),
    )

-- A part of a head is taken for the end of the input.
echo_round_ended :
    (h : Stdout) (stdin : List Input) (out : List ℕ)
    → IsIntact stdin
    → length (contents stdin) < 4
    → echo_round h stdin out ≡ some (some success, out, (read_exact stdin 4).2)
unfolding echo_round
echo_round_ended h stdin out intact short =
    rw (echo_round, read_exact_short stdin 4 intact short) refl

echo_from-frames :
    (ms : List (List ℕ)) (rounds : ℕ) (h : Stdout) (stdin : List Input) (tail out : List ℕ)
    → IsOpen h
    → All IsMessage ms
    → IsIntact stdin
    → contents stdin ≡ frames ms ++ tail
    → length tail < 4
    → length ms < rounds
    → echo_from rounds h stdin out ≡ some (success, out ++ frames ms)
unfolding echo_from
echo_from-frames ms zero h stdin tail out ok all intact has short enough =
    absurd (omega (arith, enough))
echo_from-frames [] (suc rounds) h stdin tail out ok all intact has short enough =
    let last = echo_round_ended h stdin out intact (omega (arith, ap length has, short)) in
    rw (echo_from, last) (ap (λ o. some (success, o)) (sym (append-nil out)))
echo_from-frames (message ∷ ms) (suc rounds) h stdin tail out ok (fits, all) intact has short
      enough =
    let has' = has ∙ append_assoc (frame message) (frames ms) tail in
    let (stdin', ran, left, intact') =
      echo_round-frame h stdin message (frames ms ++ tail) out ok fits intact has' in
    rw (echo_from, ran)
      (echo_from-frames ms rounds h stdin' tail (out ++ frame message) ok all intact' left short
          (omega (arith, enough))
        ∙ ap (λ o. some (success, o)) (append_assoc out (frame message) (frames ms)))

length-frames : (ms : List (List ℕ)) → length ms ≤ length (frames ms)
length-frames [] = omega arith
length-frames (message ∷ ms) = omega (
  arith,
  length-frames ms,
  length-append (frame message) (frames ms),
  length-append (le_bytes 4 (length message)) message,
  length-le_bytes 4 (length message),
)

-- From an input without errors, in any pieces, that brings messages of one byte to 1 MiB behind their lengths, and
-- with a stdout that always takes something and can be flushed, the program ends with EXIT_SUCCESS and has written the
-- same messages behind their lengths, in their order. It does so too if up to three bytes of another length
-- follow.
pub echo_from-echoes :
    (ms : List (List ℕ)) (h : Stdout) (stdin : List Input) (tail : List ℕ)
    → IsOpen h
    → All IsMessage ms
    → IsIntact stdin
    → contents stdin ≡ frames ms ++ tail
    → length tail < 4
    → echo_from (suc (length (contents stdin))) h stdin [] ≡ some (success, frames ms)
echo_from-echoes ms h stdin tail ok all intact has short =
    echo_from-frames ms (suc (length (contents stdin))) h stdin tail [] ok all intact has short
      (omega (arith, length-frames ms, ap length has, length-append (frames ms) tail))
