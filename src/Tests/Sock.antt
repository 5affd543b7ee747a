-- ===== src/Tests/Sock.antt =====
-- Transfers over a socket.
use portable_tls_ra.Base.{◌≡◌, refl, inl, inr, true, some, List, [], ◌∷◌, arith, ℕ}
use portable_tls_ra.Sock.Defs.{wrote, received, recv_ok, sock_send, sock_recv}
use portable_tls_ra.Sock.Send.{sock_send_lem}
use portable_tls_ra.Sock.Recv.{sock_recv_lem}

abbrev message : List ℕ
message = 10 ∷ 20 ∷ 30 ∷ 40 ∷ []

sends_in_parts : sock_send (wrote 3 ∷ wrote 1 ∷ []) message 4 ≡ some (true, message)
unfolding sock_send
sends_in_parts = refl

sock_send_example : sock_send (wrote 3 ∷ wrote 1 ∷ []) message 4 ≡ some (true, message)
sock_send_example =
    sock_send_lem (wrote 3 ∷ wrote 1 ∷ []) message (omega arith) (omega arith)
      (inr (omega arith, omega arith, inr (omega arith, omega arith, refl)))

sock_recv_example :
    sock_recv (received (10 ∷ []) ∷ received (20 ∷ 30 ∷ 40 ∷ []) ∷ []) (0 ∷ 0 ∷ 0 ∷ 0 ∷ 7 ∷ []) 4
    ≡ some (recv_ok (10 ∷ 20 ∷ 30 ∷ 40 ∷ 7 ∷ []))
sock_recv_example =
    sock_recv_lem (received (10 ∷ []) ∷ received (20 ∷ 30 ∷ 40 ∷ []) ∷ []) (0 ∷ 0 ∷ 0 ∷ 0 ∷ 7 ∷ [])
      message (omega arith)
      (omega arith, inr (20 ∷ 30 ∷ 40 ∷ [], omega arith, refl, (omega arith, inl refl)))
