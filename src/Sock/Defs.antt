-- ===== src/Sock/Defs.antt =====
-- The loops of `sock_send` and `sock_recv` of src/libsock.c. What the system calls return is a script,
-- one item for each call; where the script ends before the loop does, the loop is still running, and
-- the result is `none`. Sizes are 64-bit words, so the -1 of a failed call is 2 ^ 64 - 1.
use portable_tls_ra.Base.{
  ℕ, ◌+◌, ◌-◌, ◌%◌, ◌^◌, Bool, true, false, ◌&&◌, Option, none, some, List, [], ◌∷◌, ◌++◌, ltb, leb,
  ◌==◌, if◌then◌else◌, take, drop, length,
}

-- What a call of `write` returns: -1, or the number of bytes taken.
pub data Written : Type 0 where
  write_failed : Written
  wrote : ℕ → Written

abbrev pub size_mod : ℕ
size_mod = 2 ^ 64

-- The result as the `size_t` in which the code keeps it.
abbrev pub written_size : Written → ℕ
written_size write_failed = size_mod - 1
written_size (wrote n) = n

-- The bytes that the call puts on the wire.
abbrev pub written_bytes : Written → List ℕ → List ℕ
written_bytes write_failed rest = []
written_bytes (wrote n) rest = take n rest

-- The loop of `sock_send`: true for 0 and false for -1, with the bytes that went out.
unfoldable pub send_from : List Written → List ℕ → ℕ → ℕ → List ℕ → Option (Bool × List ℕ)
send_from [] buf size totsz out = none
send_from (r ∷ rs) buf size totsz out =
    let sz = written_size r in
    let totsz' = (totsz + sz) % size_mod in
    let out' = out ++ written_bytes r (drop totsz buf) in
    if leb sz 0
    then some (false, out)
    else if ltb totsz' size
    then send_from rs buf size totsz' out'
    else some (true, out')

unfoldable pub sock_send : List Written → List ℕ → ℕ → Option (Bool × List ℕ)
unfolding send_from
sock_send script buf size = send_from script buf size 0 []

-- What a call of `recv` returns: -1, or the bytes that it stored; none of them at the end of stream.
pub data Received : Type 0 where
  recv_failed : Received
  received : List ℕ → Received

abbrev pub received_size : Received → ℕ
received_size recv_failed = size_mod - 1
received_size (received bytes) = length bytes

abbrev pub received_bytes : Received → List ℕ
received_bytes recv_failed = []
received_bytes (received bytes) = bytes

-- What `sock_recv` returns: 0 with the buffer, or -1 after a disconnection. The test for -2 reads `sz < 0` of an
-- unsigned number, so that there is no such result.
pub data RecvResult : Type 0 where
  recv_ok : List ℕ → RecvResult
  disconnected : RecvResult

-- The bytes of the buffer after `bytes` were stored from `at` on.
unfoldable pub store_at : ℕ → List ℕ → List ℕ → List ℕ
store_at at bytes buf = take at buf ++ bytes ++ drop (at + length bytes) buf

-- The loop of `sock_recv`, with what the buffer holds.
unfoldable pub recv_from : List Received → List ℕ → ℕ → ℕ → Option RecvResult
unfolding store_at
recv_from [] buf size totsz = none
recv_from (r ∷ rs) buf size totsz =
    let sz = received_size r in
    let totsz' = (totsz + sz) % size_mod in
    let buf' = store_at totsz (received_bytes r) buf in
    if sz == 0 && totsz == 0
    then some disconnected
    else if ltb totsz' size
    then recv_from rs buf' size totsz'
    else some (recv_ok buf')

unfoldable pub sock_recv : List Received → List ℕ → ℕ → Option RecvResult
unfolding recv_from
sock_recv script buf size = recv_from script buf size 0
