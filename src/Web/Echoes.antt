-- ===== src/Web/Echoes.antt =====
-- What the native messaging host writes.
use portable_tls_ra.Base.{
  ℕ, zero, suc, ◌<◌, ◌≡◌, ◌⊎◌, inl, inr, refl, ap, sym, ◌∙◌, ◌||◌, Option, none, some, List, [],
  ◌++◌, length, take, drop, ltb, ◌==◌, append_assoc, length-append, take-append-drop, Bool-cases,
  arith, le_word,
}
use portable_tls_ra.Web.Host.{
  Input, ReadEnd, filled, ended, failed, read_exact, Stdout, write_exact, max_echo_message, Exit,
  success, failure, echo, echo_round, echo_from,
}
use portable_tls_ra.Web.Reads.{contents, Wrote, write_from-Wrote, read_exact_filled}

ReadEnd-cases : (r : ReadEnd) → (r ≡ filled) ⊎ ((r ≡ ended) ⊎ (r ≡ failed))
ReadEnd-cases filled = inl refl
ReadEnd-cases ended = inr (inl refl)
ReadEnd-cases failed = inr (inr refl)

write_exact-Wrote : (h : Stdout) (buf out : List ℕ) → Wrote buf out (write_exact h buf out)
unfolding write_exact
write_exact-Wrote h buf out = write_from-Wrote (length buf) h buf out (omega arith)

-- What a round has written is a front of what was to come; if the loop goes on, all of it up to what is left.
abbrev Front : List ℕ → List ℕ → List ℕ → Option Exit × List ℕ → Type 0
Front before message rest (none, out) = before ++ (message ++ rest) ≡ out ++ rest
Front before message rest (some e, out) =
    (left : List ℕ) × (before ++ (message ++ rest) ≡ out ++ left)

-- A front of the message after what was written.
front_of :
    (out buf rest : List ℕ) (k : ℕ)
    → out ++ (buf ++ rest) ≡ (out ++ take k buf) ++ (drop k buf ++ rest)
front_of out buf rest k =
    ap (λ t. out ++ (t ++ rest)) (sym (take-append-drop k buf))
    ∙ ap (λ t. out ++ t) (append_assoc (take k buf) (drop k buf) rest)
    ∙ sym (append_assoc out (take k buf) (drop k buf ++ rest))

echo-Front :
    (h : Stdout) (head message out rest : List ℕ)
    → (r : Option Exit × List ℕ) × (echo h head message out ≡ some r)
      × Front out (head ++ message) rest r
unfolding echo
echo-Front h head message out rest =
    let (b1, k1, w1, all1) = write_exact-Wrote h head out in
    let out1 = out ++ take k1 head in
    let (b2, k2, w2, all2) = write_exact-Wrote h message out1 in
    let out2 = out1 ++ take k2 message in
    let joined : out ++ ((head ++ message) ++ rest) ≡ out ++ (head ++ (message ++ rest)) =
      ap (λ t. out ++ t) (append_assoc head message rest) in
    let first = joined ∙ front_of out head (message ++ rest) k1 in
    elim (Bool-cases b1) [
      | inr broken ↦ (
        (some failure, out1),
        rw (echo, w1, broken) refl,
        (drop k1 head ++ (message ++ rest), first),
      )
      | inl ok1 ↦
          let on : out ++ ((head ++ message) ++ rest) ≡ out1 ++ (message ++ rest) =
            joined
            ∙ sym (append_assoc out head (message ++ rest))
            ∙ ap (λ t. (out ++ t) ++ (message ++ rest)) (sym (all1 ok1)) in
          let second = on ∙ front_of out1 message rest k2 in
          elim (Bool-cases b2) [
            | inr broken ↦ (
              (some failure, out2),
              rw (echo, w1, ok1, w2, broken) refl,
              (drop k2 message ++ rest, second),
            )
            | inl ok2 ↦
                let done : out ++ ((head ++ message) ++ rest) ≡ out2 ++ rest =
                  on
                  ∙ sym (append_assoc out1 message rest)
                  ∙ ap (λ t. (out1 ++ t) ++ rest) (sym (all2 ok2)) in
                elim (Bool-cases (h.fflush (length out2))) [
                  | inl flushed ↦ ((none, out2), rw (echo, w1, ok1, w2, ok2, flushed) refl, done)
                  | inr stuck ↦
                      ((some failure, out2), rw (echo, w1, ok1, w2, ok2, stuck) refl, (rest, done))
                ]
          ]
    ]

-- After a round: what is written and what is left are what there was before, and less is left than before.
abbrev Round : List ℕ → ℕ → Option Exit × List ℕ × List Input → Type 0
Round all n (none, out, stdin) = (all ≡ out ++ contents stdin) × (length (contents stdin) < n)
Round all n (some e, out, stdin) = (left : List ℕ) × (all ≡ out ++ left)

-- The round after its message has been read.
echo-Round :
    (h : Stdout) (stdin stdin2 : List Input) (head message out : List ℕ)
    → contents stdin ≡ (head ++ message) ++ contents stdin2
    → 0 < length head
    → (r : Option Exit × List ℕ) × (echo h head message out ≡ some r)
      × Round (out ++ contents stdin) (length (contents stdin)) (r.0, r.1, stdin2)
echo-Round h stdin stdin2 head message out split more =
    let ((e, out'), ran, front) = echo-Front h head message out (contents stdin2) in
    let all : out ++ contents stdin ≡ out ++ ((head ++ message) ++ contents stdin2) =
      ap (λ t. out ++ t) split in
    let shorter : length (contents stdin2) < length (contents stdin) = omega (
      arith,
      more,
      ap length split,
      length-append (head ++ message) (contents stdin2),
      length-append head message,
    ) in
    (
      (e, out'),
      ran,
      (elim e
            as (λ x.
              Front out (head ++ message) (contents stdin2) (x, out')
              → Round (out ++ contents stdin) (length (contents stdin)) (x, out', stdin2)) [
                | none ↦ λ f. (all ∙ f, shorter)
                | some x ↦ λ f. (f.0, all ∙ f.1)
              ])
          front,
    )

echo_round-Round :
    (h : Stdout) (stdin : List Input) (out : List ℕ)
    → (r : Option Exit × List ℕ × List Input) × (echo_round h stdin out ≡ some r)
      × Round (out ++ contents stdin) (length (contents stdin)) r
unfolding echo_round
echo_round-Round h stdin out =
    let (end1, head, stdin1) = read_exact stdin 4 in
    elim (ReadEnd-cases end1) [
      | inr (inl e) ↦ ((some success, out, stdin1), rw (echo_round, e) refl, (contents stdin, refl))
      | inr (inr e) ↦ ((some failure, out, stdin1), rw (echo_round, e) refl, (contents stdin, refl))
      | inl e ↦
          let (kept, four) = read_exact_filled stdin 4 e in
          let len = le_word head in
          elim (Bool-cases (len == 0 || ltb max_echo_message len)) [
            | inl wrong ↦ (
              (some failure, out, stdin1),
              rw (echo_round, e, wrong) refl,
              (contents stdin, refl),
            )
            | inr right ↦
                let (end2, message, stdin2) = read_exact stdin1 len in
                elim (ReadEnd-cases end2) [
                  | inr (inl e') ↦ (
                    (some failure, out, stdin2),
                    rw (echo_round, e, right, e') refl,
                    (contents stdin, refl),
                  )
                  | inr (inr e') ↦ (
                    (some failure, out, stdin2),
                    rw (echo_round, e, right, e') refl,
                    (contents stdin, refl),
                  )
                  | inl e' ↦
                      let (kept', size) = read_exact_filled stdin1 len e' in
                      let split : contents stdin ≡ (head ++ message) ++ contents stdin2 =
                        kept
                        ∙ ap (λ t. head ++ t) kept'
                        ∙ sym (append_assoc head message (contents stdin2)) in
                      let (r, ran, round) =
                        echo-Round h stdin stdin2 head message out split (omega (arith, four)) in
                      ((r.0, r.1, stdin2), rw (echo_round, e, right, e', ran) refl, round)
                ]
          ]
    ]

echo_from-front :
    (rounds : ℕ) (h : Stdout) (stdin : List Input) (out : List ℕ)
    → length (contents stdin) < rounds
    → (e : Exit) × (out' : List ℕ) × (left : List ℕ) × (echo_from rounds h stdin out
        ≡ some (e, out'))
      × (out ++ contents stdin ≡ out' ++ left)
unfolding echo_from
echo_from-front zero h stdin out enough = absurd (omega (arith, enough))
echo_from-front (suc rounds) h stdin out enough =
    let ((e, out1, stdin1), ran, round) = echo_round-Round h stdin out in
    let go : (x : Option Exit)
        → echo_round h stdin out ≡ some (x, out1, stdin1)
        → Round (out ++ contents stdin) (length (contents stdin)) (x, out1, stdin1)
        → (e : Exit) × (out' : List ℕ) × (left : List ℕ) × (echo_from (suc rounds) h stdin out
            ≡ some (e, out'))
          × (out ++ contents stdin ≡ out' ++ left) =
      λ x.
        elim x
          as (λ x.
            echo_round h stdin out ≡ some (x, out1, stdin1)
            → Round (out ++ contents stdin) (length (contents stdin)) (x, out1, stdin1)
            → (e : Exit) × (out' : List ℕ) × (left : List ℕ) × (echo_from (suc rounds) h stdin out
                ≡ some (e, out'))
              × (out ++ contents stdin ≡ out' ++ left)) [
                | some e ↦ λ ran r. (e, out1, r.0, rw (echo_from, ran) refl, r.1)
                | none ↦ λ ran r.
                    let (e, out', left, later, kept) =
                      echo_from-front rounds h stdin1 out1 (omega (arith, enough, r.1)) in
                    (e, out', left, rw (echo_from, ran) later, r.0 ∙ kept)
              ] in
    go e ran round

-- Whatever stdin brings and however writes go, the program ends, within as many rounds as stdin has bytes and one more, and all that
-- it has written by then is a front of what stdin brought, unchanged.
pub echo_from_prefix :
    (h : Stdout) (stdin : List Input)
    → (e : Exit) × (out : List ℕ) × (left : List ℕ) × (echo_from
          (suc (length (contents stdin)))
          h
          stdin
          []
        ≡ some (e, out))
      × (contents stdin ≡ out ++ left)
echo_from_prefix h stdin = echo_from-front (suc (length (contents stdin))) h stdin [] (omega arith)
