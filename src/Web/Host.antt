-- ===== src/Web/Host.antt =====
-- `read_exact`, `write_exact` and the loop of `main` of web/native-messaging-echo/native_host/echo_host.c. Numbers are
-- stored from the low byte on, as on the machines that the program is built for. `none` is a run that is not over.
use portable_tls_ra.Base.{
  ℕ, zero, suc, ◌-◌, ◌*◌, Bool, true, false, ◌||◌, Option, none, some, List, [], ◌∷◌, ◌++◌, length,
  take, drop, leb, ltb, ◌==◌, if◌then◌else◌, le_word,
}

-- What stdin brings: pieces of any size, and errors of an `fread` that gives no byte; the loop does not ask for an
-- error after some bytes, so that this is a piece. Behind the last item is the end of the file.
pub data Input : Type 0 where
  chunk : List ℕ → Input
  read_error : Input

-- The results 1, 0 and -1 of `read_exact`.
pub data ReadEnd : Type 0 where
  filled : ReadEnd
  ended : ReadEnd
  failed : ReadEnd

-- The loop of `read_exact`, with the bytes that are left to read and those in the buffer; what is left of stdin.
unfoldable pub read_from : List Input → ℕ → List ℕ → ReadEnd × List ℕ × List Input
read_from [] left got = (if left == 0 then filled else ended, got, [])
read_from (read_error ∷ rest) left got =
    if left == 0 then (filled, got, read_error ∷ rest) else (failed, got, rest)
read_from (chunk bytes ∷ rest) left got =
    let next = read_from rest (left - length bytes) (got ++ bytes) in
    if left == 0
    then (filled, got, chunk bytes ∷ rest)
    else if leb (length bytes) left
    then next
    else (filled, got ++ take left bytes, chunk (drop left bytes) ∷ rest)

unfoldable pub read_exact : List Input → ℕ → ReadEnd × List ℕ × List Input
unfolding read_from
read_exact stdin size = read_from stdin size []

-- What `fwrite` takes of so many bytes after so many have been written, and whether `fflush` returns 0 then.
pub record Stdout : Type 0 where
  pub fwrite : ℕ → ℕ → ℕ
  pub fflush : ℕ → Bool

-- The loop of `write_exact` with a number of calls: whether the result is 0, and all that was written.
unfoldable pub write_from : ℕ → Stdout → List ℕ → List ℕ → Option (Bool × List ℕ)
write_from calls h [] out = some (true, out)
write_from zero h (x ∷ buf) out = none
write_from (suc calls) h (x ∷ buf) out =
    let n = h.fwrite (length out) (suc (length buf)) in
    let next = write_from calls h (drop n (x ∷ buf)) (out ++ take n (x ∷ buf)) in
    if n == 0 then some (false, out) else next

-- Each call takes a byte at least, or the last one ends the loop.
unfoldable pub write_exact : Stdout → List ℕ → List ℕ → Option (Bool × List ℕ)
unfolding write_from
write_exact h buf out = write_from (length buf) h buf out

abbrev pub max_echo_message : ℕ
max_echo_message = 1024 * 1024

-- EXIT_SUCCESS and EXIT_FAILURE.
pub data Exit : Type 0 where
  success : Exit
  failure : Exit

-- The part of a round after the message has been read: `none` inside is the next round.
unfoldable pub echo : Stdout → List ℕ → List ℕ → List ℕ → Option (Option Exit × List ℕ)
echo h head message out = elim (write_exact h head out) [
  | none ↦ none
  | some (false, out1) ↦ some (some failure, out1)
  | some (true, out1) ↦ elim (write_exact h message out1) [
    | none ↦ none
    | some (false, out2) ↦ some (some failure, out2)
    | some (true, out2) ↦ some (if h.fflush (length out2) then none else some failure, out2)
  ]
]

-- A round of the loop: the result of `main`, if it returns, what was written, and what is left of stdin.
unfoldable pub echo_round :
    Stdout → List Input → List ℕ → Option (Option Exit × List ℕ × List Input)
echo_round h stdin out =
    let (r, head, stdin1) = read_exact stdin 4 in
    elim r [
      | ended ↦ some (some success, out, stdin1)
      | failed ↦ some (some failure, out, stdin1)
      | filled ↦
          let len = le_word head in
          if len == 0 || ltb max_echo_message len
          then some (some failure, out, stdin1)
          else (let (r', message, stdin2) = read_exact stdin1 len in
              elim r' [
                | ended ↦ some (some failure, out, stdin2)
                | failed ↦ some (some failure, out, stdin2)
                | filled ↦ elim (echo h head message out) [
                  | none ↦ none
                  | some (e, out') ↦ some (e, out', stdin2)
                ]
              ])
    ]

-- The loop, for a number of rounds.
unfoldable pub echo_from : ℕ → Stdout → List Input → List ℕ → Option (Exit × List ℕ)
echo_from zero h stdin out = none
echo_from (suc rounds) h stdin out = elim (echo_round h stdin out) [
  | none ↦ none
  | some (some e, out', stdin') ↦ some (e, out')
  | some (none, out', stdin') ↦ echo_from rounds h stdin' out'
]
