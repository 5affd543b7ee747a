-- ===== src/Daemon/Serve.antt =====
-- The loop of `tpmddaemon` of tpm2/tpmdaemon.c over the connections and the packets of each, `reply_attest`, and
-- `ecall_unseal` of tpm2/Enclave/enclave.c. What is sent is taken to reach the socket. `none` stands for an access
-- past the end of an allocation.
use portable_tls_ra.Base.{
  ℕ, Option, none, some, List, [], ◌∷◌, ◌++◌, length, take, drop, ltb, ◌==◌, if◌then◌else◌, ◌>>=◌,
}
use portable_tls_ra.Sock.Defs.{Received}
use portable_tls_ra.Pica.Evidence.Types.{External, EvpCalls}
use portable_tls_ra.Daemon.Defs.{
  TpmdPacket, tpmd_req_pica, tpmd_aux_ok, tpmd_aux_err, encode_packet, readpacket, answer_pica,
}
use portable_tls_ra.Daemon.Quote.{QuoteCalls, make_tpm2_quote_with_pid, make_tpm2_pica}

abbrev pub tpmd_req_hello : ℕ
tpmd_req_hello = 1

abbrev pub tpmd_req_attest : ℕ
tpmd_req_attest = 2

abbrev pub tpmd_rpl_attest : ℕ
tpmd_rpl_attest = 258

-- `buf` of tpmddaemon.
abbrev pub buf_size : ℕ
buf_size = 2048

-- `sgx_unseal_data` into a buffer of `sgx_get_encrypt_txt_len` bytes, and the two calls of libcbor that serialise
-- the replies.
pub record ServeCalls : Type 0 where
  pub unseal : List ℕ → Option (List ℕ)
  pub attest_map : List ℕ → List ℕ → List ℕ
  pub pica_map : List ℕ → List ℕ → List ℕ

-- `outp` after the call, which does not compare the length of the plain text with that of `outp`.
unfoldable pub ecall_unseal : ServeCalls → List ℕ → List ℕ → Option (List ℕ)
ecall_unseal calls datp outp = elim (calls.unseal datp) [
  | none ↦ some outp
  | some plain ↦
      if ltb (length outp) (length plain) then none else some (plain ++ drop (length plain) outp)
]

-- What a connection delivers for a call of `readpacket`, with what the stack and the heap hold before, the
-- array of `make_tpm2_quote_with_pid` and the `cmd` of an error of `reply_pica` included, and the serialised
-- chain of the client's processes at that time.
pub record Arrival : Type 0 where
  pub heads : List Received
  pub bodies : List Received
  pub stack : List ℕ
  pub heap : List ℕ
  pub unsealed : List ℕ
  pub newhash : List ℕ
  pub stack_cmd : ℕ
  pub chain : List ℕ

-- The bytes of `buf` that a reply takes.
abbrev pub quoted : ℕ × List ℕ → Option (List ℕ)
quoted (size, bytes) = if ltb buf_size size then none else some bytes

-- What `reply_attest` sends.
unfoldable pub reply_attest : ServeCalls → List ℕ → List ℕ → List ℕ
reply_attest calls nonce tpm2_quote =
    let sendbuf = calls.attest_map (take 32 nonce) tpm2_quote in
    if length sendbuf == 0
    then encode_packet (record { cmd = tpmd_rpl_attest; aux = tpmd_aux_err; len = 0 }) []
    else encode_packet (record { cmd = tpmd_rpl_attest; aux = tpmd_aux_ok; len = length sendbuf })
        sendbuf

-- How the loop over the packets of a connection ends: by a result of `readpacket` that is not 0, or not within the
-- arrivals, so that it still waits.
pub data Ending : Type 0 where
  closed : Ending
  waiting : Ending

module _ {Key : Type 0} (ext : External Key) (evp : EvpCalls) (quotes : QuoteCalls)
    (calls : ServeCalls) where
  -- The case TPMD_REQ_ATTEST; `apphash` is the digest of the client's executable and libraries.
  unfoldable pub serve_attest : List ℕ → Arrival → List ℕ → Option (List ℕ)
  serve_attest apphash a contents = ecall_unseal calls contents a.unsealed >>= λ nonce.
      quoted (make_tpm2_quote_with_pid ext evp quotes a.newhash nonce 32 buf_size apphash 32)
      >>= λ quote'. some (reply_attest calls nonce quote')

  -- The case TPMD_REQ_PICA.
  unfoldable pub serve_pica : Arrival → List ℕ → Option (List ℕ)
  serve_pica a contents =
      let r = make_tpm2_pica ext evp quotes a.newhash a.chain (take 32 contents) buf_size in
      quoted r >>= λ quote'.
      answer_pica (λ nonce. (quote', a.chain)) calls.pica_map a.stack_cmd contents

  -- The `switch` on the command of a packet: what is sent.
  unfoldable pub serve_packet : List ℕ → Arrival → TpmdPacket → List ℕ → Option (List ℕ)
  serve_packet apphash a head contents =
      if head.cmd == tpmd_req_hello
      then some []
      else if head.cmd == tpmd_req_attest
      then serve_attest apphash a contents
      else if head.cmd == tpmd_req_pica
      then serve_pica a contents
      else some []

  -- The loop over the packets of a connection, with what has been sent.
  unfoldable pub serve_from : List ℕ → List Arrival → List ℕ → Option (List ℕ × Ending)
  serve_from apphash [] out = some (out, waiting)
  serve_from apphash (a ∷ as') out = elim (readpacket a.heads a.bodies a.stack a.heap) [
    | none ↦ some (out, waiting)
    | some none ↦ some (out, closed)
    | some (some (head, contents)) ↦ elim (serve_packet apphash a head contents) [
      | none ↦ none
      | some reply ↦ serve_from apphash as' (out ++ reply)
    ]
  ]

  -- The loop over the connections, each with the digest that `sha256_pid` gives of its client: what is sent on each
  -- connection that is served, the last one perhaps being served still.
  unfoldable pub tpmddaemon : List (List ℕ × List Arrival) → Option (List (List ℕ))
  tpmddaemon [] = some []
  tpmddaemon ((apphash, as') ∷ rest) = elim (serve_from apphash as' []) [
    | none ↦ none
    | some (out, waiting) ↦ some (out ∷ [])
    | some (out, closed) ↦ elim (tpmddaemon rest) [ none ↦ none | some outs ↦ some (out ∷ outs) ]
  ]
