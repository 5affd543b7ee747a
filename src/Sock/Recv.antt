-- ===== src/Sock/Recv.antt =====
-- What `sock_recv` delivers.
use portable_tls_ra.Base.{
  ℕ, zero, suc, ◌+◌, ◌%◌, ◌<◌, ◌≡◌, ◌⊎◌, inl, inr, refl, true, false, none, some, List, [], ◌∷◌,
  ◌++◌, ltb, ◌==◌, drop, length, arith, replicate, ◌∙◌, ap, append_assoc, length-append,
  take-append, drop-append_past, drop-drop,
}
use portable_tls_ra.Sock.Defs.{
  Received, recv_failed, received, recv_ok, disconnected, size_mod, store_at, recv_from, sock_recv,
}

-- The calls deliver `msg` in pieces of at least one byte each, and nothing is said of the calls after
-- the last piece.
abbrev pub Delivers : List Received → List ℕ → Type 0
Delivers [] msg = ⊥
Delivers (recv_failed ∷ rs) msg = ⊥
Delivers (received bytes ∷ rs) msg =
    (0 < length bytes)
    × ((bytes ≡ msg)
        ⊎ ((rest : List ℕ) × (0 < length rest) × (msg ≡ bytes ++ rest) × Delivers rs rest))

-- Storing behind what is there.
store_at_end :
    (got bytes tail : List ℕ)
    → store_at (length got) bytes (got ++ tail) ≡ got ++ bytes ++ drop (length bytes) tail
unfolding store_at
store_at_end got bytes tail =
    rw (take-append got tail (length got) refl, drop-append_past got tail (length bytes))

recv_from_all :
    (rs : List Received) (got tail msg : List ℕ) (size : ℕ)
    → length got + length msg ≡ size
    → size < size_mod
    → Delivers rs msg
    → recv_from rs (got ++ tail) size (length got)
      ≡ some (recv_ok (got ++ msg ++ drop (length msg) tail))
unfolding recv_from
recv_from_all [] got tail msg size len small d = absurd d
recv_from_all (recv_failed ∷ rs) got tail msg size len small d = absurd d
recv_from_all (received bytes ∷ rs) got tail msg size len small (pos, inl e) =
    let stored = store_at_end got bytes tail in
    let full : (length got + length bytes) % size_mod ≡ size = omega (arith, ap length e) in
    let some_got : length bytes == 0 ≡ false = ground arith in
    let done : ltb size size ≡ false = ground arith in rw (stored, some_got, full, done) (rw e)
recv_from_all (received bytes ∷ rs) got tail msg size len small (pos, inr (rest, more, e, d)) =
    let stored = store_at_end got bytes tail in
    let count = length-append bytes rest in
    let left = length-append got bytes in
    let wrap : (length got + length bytes) % size_mod ≡ length (got ++ bytes) =
      omega (arith, ap length e) in
    let some_got : length bytes == 0 ≡ false = ground arith in
    let again : ltb (length (got ++ bytes)) size ≡ true = ground (arith, ap length e) in
    let ih =
      recv_from_all rs (got ++ bytes) (drop (length bytes) tail) rest size
        (omega (arith, ap length e)) small d in
    rw (stored, some_got, wrap, again)
      (ih
        ∙ ap (λ b. some (recv_ok b)) rw
            (drop-drop (length bytes) (length rest) tail, e, count, append_assoc got bytes rest))

-- If the message arrives in pieces of at least one byte each, `sock_recv` returns 0 with the message
-- at the start of the buffer and the rest of the buffer as it was, whatever the fragmentation.
pub sock_recv_lem :
    (rs : List Received) (buf msg : List ℕ)
    → length msg < size_mod
    → Delivers rs msg
    → sock_recv rs buf (length msg) ≡ some (recv_ok (msg ++ drop (length msg) buf))
unfolding sock_recv
sock_recv_lem rs buf msg small d = recv_from_all rs [] buf msg (length msg) (omega arith) small d

-- A stream that ends before the first byte is reported as a disconnection.
pub sock_recv_closed :
    (rs : List Received) (buf : List ℕ) (size : ℕ)
    → sock_recv (received [] ∷ rs) buf size ≡ some disconnected
unfolding sock_recv recv_from
sock_recv_closed rs buf size = refl

-- A first `recv` that fails is taken for a success: `sock_recv` returns 0 with the buffer untouched.
pub sock_recv_failed :
    (rs : List Received) (buf : List ℕ) (size : ℕ)
    → size < size_mod
    → sock_recv (recv_failed ∷ rs) buf size ≡ some (recv_ok buf)
unfolding sock_recv recv_from store_at
sock_recv_failed rs buf size small = ground arith

recv_from_ended :
    (n : ℕ) (buf : List ℕ) (size totsz : ℕ)
    → 0 < totsz
    → totsz < size
    → size < size_mod
    → recv_from (replicate n (received [])) buf size totsz ≡ none
unfolding recv_from
recv_from_ended zero buf size totsz pos more small = refl
recv_from_ended (suc n) buf size totsz pos more small =
    let wrap : (totsz + 0) % size_mod ≡ totsz = omega arith in
    let open' : totsz == 0 ≡ false = ground arith in
    let again : ltb totsz size ≡ true = ground arith in
    rw (wrap, open', again) (recv_from_ended n (store_at totsz [] buf) size totsz pos more small)

-- A stream that ends within a message is never noticed: after any number of further calls, which all
-- report the end of the stream, `sock_recv` is still in its loop.
pub sock_recv_spins :
    (n : ℕ) (bytes buf : List ℕ) (size : ℕ)
    → 0 < length bytes
    → length bytes < size
    → size < size_mod
    → sock_recv (received bytes ∷ replicate n (received [])) buf size ≡ none
unfolding sock_recv recv_from
sock_recv_spins n bytes buf size pos more small =
    let wrap : (0 + length bytes) % size_mod ≡ length bytes = omega arith in
    let some_got : length bytes == 0 ≡ false = ground arith in
    let again : ltb (length bytes) size ≡ true = ground arith in
    rw (some_got, wrap, again)
      (recv_from_ended n (store_at 0 bytes buf) size (length bytes) pos more small)
