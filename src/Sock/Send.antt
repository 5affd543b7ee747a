-- ===== src/Sock/Send.antt =====
-- What `sock_send` puts on the wire.
use portable_tls_ra.Base.{
  ℕ, ◌+◌, ◌-◌, ◌%◌, ◌≤◌, ◌<◌, ◌≡◌, ◌⊎◌, inl, inr, refl, true, false, some, List, [], ◌∷◌, ◌++◌, ltb,
  leb, take, drop, length, arith, Bool-cases, ltb→lt, subst, ◌∙◌, ap, append_assoc, append-nil,
  take-drop, take_all, length-drop, ltb→lt, subst, ◌∙◌, ap, append_assoc, append-nil, take-drop,
  take_all, length-drop,
}
use portable_tls_ra.Sock.Defs.{Written, write_failed, wrote, size_mod, send_from, sock_send}

-- The calls behave as `write` does on a connected socket while there are `left` bytes to send: each
-- takes at least one byte and at most what it is offered, and there are enough calls.
abbrev pub Progresses : List Written → ℕ → Type 0
Progresses [] left = left ≡ 0
Progresses (write_failed ∷ rs) left = left ≡ 0
Progresses (wrote n ∷ rs) left = (left ≡ 0) ⊎ ((0 < n) × (n ≤ left) × Progresses rs (left - n))

sub-add : (a b c : ℕ) → a - b - c ≡ a - (b + c)
sub-add a b c = omega arith

sub_zero : (a : ℕ) → a ≡ a - 0
sub_zero a = omega arith

send_from_all :
    (rs : List Written) (buf : List ℕ) (size totsz : ℕ) (out : List ℕ)
    → length buf ≡ size
    → size < size_mod
    → totsz < size
    → Progresses rs (size - totsz)
    → send_from rs buf size totsz out ≡ some (true, out ++ drop totsz buf)
unfolding send_from
send_from_all [] buf size totsz out len small more p = absurd (omega arith)
send_from_all (write_failed ∷ rs) buf size totsz out len small more p = absurd (omega arith)
send_from_all (wrote n ∷ rs) buf size totsz out len small more (inl done) = absurd (omega arith)
send_from_all (wrote n ∷ rs) buf size totsz out len small more (inr (some', fits, p)) =
    let wrap : (totsz + n) % size_mod ≡ totsz + n = omega arith in
    let some_sent : leb n 0 ≡ false = ground arith in
    elim (Bool-cases (ltb (totsz + n) size)) [
      | inl again ↦
          let rest =
            send_from_all rs buf size (totsz + n) (out ++ take n (drop totsz buf)) len small
              (ltb→lt (totsz + n) size again) (subst (Progresses rs) (sub-add size totsz n) p) in
          rw (some_sent, wrap, again)
            (rest
              ∙ ap (λ o. some (true, o))
                  (append_assoc out (take n (drop totsz buf)) (drop (totsz + n) buf)
                    ∙ ap (λ r. out ++ r) (take-drop totsz n buf)))
      | inr last ↦
          rw (some_sent, wrap, last)
            (rw (take_all n (drop totsz buf) (ground (arith, length-drop totsz buf))))
    ]

-- While every call takes at least a byte and at most what it is offered, `sock_send` ends after enough
-- calls with 0, and exactly the bytes of the message went out, whatever their fragmentation.
pub sock_send_lem :
    (rs : List Written) (buf : List ℕ)
    → 0 < length buf
    → length buf < size_mod
    → Progresses rs (length buf)
    → sock_send rs buf (length buf) ≡ some (true, buf)
unfolding sock_send
sock_send_lem rs buf more small p =
    send_from_all rs buf (length buf) 0 [] refl small more
      (subst (Progresses rs) (sub_zero (length buf)) p)

-- A first `write` that fails is taken for a success: `sock_send` returns 0, and nothing went out.
pub sock_send_failed :
    (rs : List Written) (buf : List ℕ)
    → length buf < size_mod
    → sock_send (write_failed ∷ rs) buf (length buf) ≡ some (true, [])
unfolding sock_send send_from
sock_send_failed rs buf small = ground arith

-- A later `write` that fails steps one byte back: `sock_send` returns 0 after the rest was taken, and
-- the byte before the failure went out twice.
pub sock_send_repeats :
    (rs : List Written) (buf : List ℕ) (n : ℕ)
    → 0 < n
    → n < length buf
    → length buf < size_mod
    → Progresses rs (length buf - (n - 1))
    → sock_send (wrote n ∷ write_failed ∷ rs) buf (length buf)
      ≡ some (true, take n buf ++ drop (n - 1) buf)
unfolding sock_send send_from
sock_send_repeats rs buf n pos more small p =
    let wrap : (0 + n) % size_mod ≡ n = omega arith in
    let back : (n + (size_mod - 1)) % size_mod ≡ n - 1 = omega arith in
    let some_sent : leb n 0 ≡ false = ground arith in
    let again : ltb n (length buf) ≡ true = ground arith in
    let again' : ltb (n - 1) (length buf) ≡ true = ground arith in
    rw (some_sent, wrap, again, back, again', append-nil)
      (send_from_all rs buf (length buf) (n - 1) (take n buf) refl small (omega arith) p)
