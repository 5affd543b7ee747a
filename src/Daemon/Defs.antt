-- ===== src/Daemon/Defs.antt =====
-- `pica_request_measure` of src/libpica_clnt.c, and `readpacket`, `reply_pica` and the answer to TPMD_REQ_PICA of
-- tpm2/tpmdaemon.c, over the scripted calls of the sockets. `none` stands for a loop of src/libsock.c that is
-- still running, or for a read past the end of an allocation.
use portable_tls_ra.Base.{
  ℕ, ◌+◌, Bool, true, false, not, Option, none, some, List, [], ◌++◌, length, take, ltb, ◌==◌,
  if◌then◌else◌, ◌>>=◌, le_bytes, next_word,
}
use portable_tls_ra.Sock.Defs.{Written, Received, recv_ok, disconnected, sock_send, sock_recv}

-- `struct tpmd_packet` before its data.
pub record TpmdPacket : Type 0 where
  pub cmd : ℕ
  pub aux : ℕ
  pub len : ℕ

abbrev pub packet_size : ℕ
packet_size = 8

abbrev pub tpmd_req_pica : ℕ
tpmd_req_pica = 3

abbrev pub tpmd_rpl_pica : ℕ
tpmd_rpl_pica = 259

abbrev pub tpmd_aux_ok : ℕ
tpmd_aux_ok = 0

abbrev pub tpmd_aux_err : ℕ
tpmd_aux_err = 1

-- The bytes of the structure before those that follow.
unfoldable pub encode_packet : TpmdPacket → List ℕ → List ℕ
encode_packet head rest =
    le_bytes 2 head.cmd ++ (le_bytes 2 head.aux ++ (le_bytes 4 head.len ++ rest))

unfoldable pub decode_packet : List ℕ → TpmdPacket
decode_packet bytes =
    let (cmd, b1) = next_word 2 bytes in
    let (aux, b2) = next_word 2 b1 in
    let (len, b3) = next_word 4 b2 in record { cmd = cmd; aux = aux; len = len }

-- The calls of a request: whether the daemon can be reached, and the scripts of its three transfers.
pub record RequestCalls : Type 0 where
  pub connects : Bool
  pub sends : List Written
  pub heads : List Received
  pub bodies : List Received

-- Whether the result is 0 (it is -1 else), the buffer `measure`, and what is stored to `*sz`.
pub record Requested : Type 0 where
  pub success : Bool
  pub measure : List ℕ
  pub size : Option ℕ

-- The request of a nonce; `aux` of its head is not initialised.
abbrev pub request_head : ℕ → TpmdPacket
request_head aux = record { cmd = tpmd_req_pica; aux = aux; len = 32 }

-- From the call that receives the head on. A reply that is too long leaves `rc` at 0.
unfoldable pub receive_measure : RequestCalls → ℕ → List ℕ → ℕ → Option Requested
receive_measure calls aux measure msz =
    sock_recv calls.heads (encode_packet (request_head aux) []) packet_size >>= λ r. elim r [
      | disconnected ↦ some (record { success = false; measure = measure; size = none })
      | recv_ok bytes ↦
          let head = decode_packet bytes in
          if ltb msz head.len
          then some (record { success = true; measure = measure; size = none })
          else (sock_recv calls.bodies measure head.len >>= λ b. elim b [
            | disconnected ↦ some (record { success = false; measure = measure; size = none })
            | recv_ok measure' ↦
                some (record { success = true; measure = measure'; size = some head.len })
          ])
    ]

-- The bytes that went out, with the result.
unfoldable pub pica_request_measure :
    RequestCalls → ℕ → List ℕ → List ℕ → ℕ → Option (List ℕ × Requested)
pica_request_measure calls aux nonce measure msz =
    if not calls.connects
    then some ([], record { success = false; measure = measure; size = none })
    else (sock_send calls.sends (encode_packet (request_head aux) (take 32 nonce))
          (packet_size + 32)
        >>= λ sent.
            if not sent.0
            then some (sent.1, record { success = false; measure = measure; size = none })
            else (receive_measure calls aux measure msz >>= λ r. some (sent.1, r)))

-- The packet with its data; the inner `none` is the result -1. `stack` and `heap` are what the
-- head and the memory from `malloc` hold before.
unfoldable pub readpacket :
    List Received → List Received → List ℕ → List ℕ → Option (Option (TpmdPacket × List ℕ))
readpacket heads bodies stack heap = sock_recv heads stack packet_size >>= λ r. elim r [
  | disconnected ↦ some none
  | recv_ok bytes ↦
      let head = decode_packet bytes in
      if ltb 0 head.len
      then (sock_recv bodies (take head.len heap) head.len >>= λ b. elim b [
        | disconnected ↦ some none
        | recv_ok data' ↦ some (some (head, data'))
      ])
      else some (some (head, []))
]

-- What `reply_pica` sends: the head and the serialised map, or the head of an error, whose `cmd` is not
-- initialised, if libcbor makes no map.
unfoldable pub reply_pica : (List ℕ → List ℕ → List ℕ) → ℕ → List ℕ → List ℕ → List ℕ
reply_pica serialize stack_cmd tpm2_quote pica =
    let sendbuf = serialize tpm2_quote pica in
    if length sendbuf == 0
    then encode_packet (record { cmd = stack_cmd; aux = tpmd_aux_err; len = 0 }) []
    else encode_packet (record { cmd = tpmd_rpl_pica; aux = tpmd_aux_ok; len = length sendbuf })
        sendbuf

-- The answer to a request: `make_tpm2_pica` gets the first 32 bytes of the data as the nonce, however long
-- it is, and gives the quote and the processes.
unfoldable pub answer_pica :
    (List ℕ → List ℕ × List ℕ) → (List ℕ → List ℕ → List ℕ) → ℕ → List ℕ → Option (List ℕ)
answer_pica make_tpm2_pica serialize stack_cmd contents =
    if ltb (length contents) 32
    then none
    else (let (quote', pica) = make_tpm2_pica (take 32 contents) in
        some (reply_pica serialize stack_cmd quote' pica))
