-- ===== src/Daemon/Answers.antt =====
-- The requests to the daemon, what is promised for each, and what it answers to a packet.
use portable_tls_ra.Base.{
  ℕ, ◌<◌, ◌≤◌, ◌≡◌, ◌⊎◌, ◌≢◌, inl, inr, refl, ap, sym, ◌∙◌, true, false, ◌&&◌, some, List, [], ◌∷◌,
  ◌++◌, append-nil, length, take, take_all, ltb, ◌==◌, arith, drop, drop_all,
}
use portable_tls_ra.Sock.Recv.{Delivers}
use portable_tls_ra.Pica.Evidence.Types.{External, EvpCalls}
use portable_tls_ra.Pica.Evidence.Bundle.{quote_entry, sign_entry, app_hash_entry, encode_bundle}
use portable_tls_ra.Daemon.Defs.{
  TpmdPacket, tpmd_req_pica, tpmd_rpl_pica, tpmd_aux_ok, encode_packet, readpacket, reply_pica,
  answer_pica,
}
use portable_tls_ra.Daemon.Exchange.{IsPacket, readpacket_lem, readpacket_empty}
use portable_tls_ra.Daemon.Quote.{
  QuoteCalls, make_tpm2_quote_with_pid, make_tpm2_pica, quote_with_pid_works,
}
use portable_tls_ra.Daemon.Serve.{
  tpmd_req_hello, tpmd_req_attest, tpmd_rpl_attest, buf_size, ServeCalls, ecall_unseal, Arrival,
  quoted, reply_attest, serve_attest, serve_pica, serve_packet,
}

-- A request of a client: a greeting, a nonce in sealed form, a nonce, or a command that the daemon does not know.
pub data Request : Type 0 where
  hello : List ℕ → Request
  attest : List ℕ → List ℕ → Request
  pica : List ℕ → Request
  unknown : ℕ → List ℕ → Request

abbrev pub request_cmd : Request → ℕ
request_cmd (hello body) = tpmd_req_hello
request_cmd (attest sealed nonce) = tpmd_req_attest
request_cmd (pica nonce) = tpmd_req_pica
request_cmd (unknown cmd body) = cmd

abbrev pub request_body : Request → List ℕ
request_body (hello body) = body
request_body (attest sealed nonce) = sealed
request_body (pica nonce) = nonce
request_body (unknown cmd body) = body

abbrev pub request_packet : ℕ → Request → TpmdPacket
request_packet aux r = record { cmd = request_cmd r; aux = aux; len = length (request_body r) }

-- The packet arrives in pieces, into memory of the size of its data.
abbrev pub Arrives : Arrival → Request → Type 0
Arrives a r =
    (aux : ℕ) × IsPacket (request_packet aux r)
    × Delivers a.heads (encode_packet (request_packet aux r) [])
    × (length (request_body r) ≡ length a.heap)
    × ((request_body r ≡ []) ⊎ ((0 < length (request_body r)) × Delivers a.bodies (request_body r)))

-- A request that arrives is read as its packet and its data.
pub received_request :
    (a : Arrival) (r : Request) (arrives : Arrives a r)
    → readpacket a.heads a.bodies a.stack a.heap
      ≡ some (some (request_packet arrives.0 r, request_body r))
received_request a r (aux, ok, d_head, room, inl none_left) =
    readpacket_empty a.heads a.bodies a.stack a.heap (request_packet aux r) ok d_head
      (ap length none_left)
    ∙ ap (λ b. some (some (request_packet aux r, b))) (sym none_left)
received_request a r (aux, ok, d_head, room, inr (more, d_body)) =
    readpacket_lem a.heads a.bodies a.stack a.heap (request_packet aux r) (request_body r) ok d_head
      refl more room d_body

module _ {Key : Type 0} (ext : External Key) (evp : EvpCalls) (quotes : QuoteCalls)
    (calls : ServeCalls) (quote' sign' : List ℕ → List ℕ) where
  -- The evidence for a hash and a nonce, if the TPM gives the quote and the signature of the section.
  abbrev pub evidence_of : List ℕ → List ℕ → List ℕ
  evidence_of hash nonce =
      let user = ext.digest (take 32 hash ++ take 32 nonce) in
      quotes.serialize (
        encode_bundle
          (quote_entry (quote' user) ∷ sign_entry (sign' user) ∷ app_hash_entry hash ∷ []))

  -- A nonce is 32 bytes, which the enclave of the daemon can unseal where it is sealed, and its array for it has
  -- 32 bytes; another command is none of the three.
  abbrev pub IsRequest : Arrival → Request → Type 0
  IsRequest a (hello body) = Unit
  IsRequest a (attest sealed nonce) =
      (length nonce ≡ 32) × (calls.unseal sealed ≡ some nonce) × (length a.unsealed ≡ 32)
  IsRequest a (pica nonce) = length nonce ≡ 32
  IsRequest a (unknown cmd body) =
      (cmd ≢ tpmd_req_hello) × (cmd ≢ tpmd_req_attest) × (cmd ≢ tpmd_req_pica)

  abbrev pub reply_of : ℕ → List ℕ → List ℕ
  reply_of cmd body =
      encode_packet (record { cmd = cmd; aux = tpmd_aux_ok; len = length body }) body

  -- What is promised: nothing for a greeting or an unknown command, evidence of the digest of the client for a
  -- sealed nonce, and evidence of the chain of its processes, with the chain, for a nonce.
  abbrev pub answer_to : List ℕ → Arrival → Request → List ℕ
  answer_to apphash a (hello body) = []
  answer_to apphash a (attest sealed nonce) =
      reply_of tpmd_rpl_attest (calls.attest_map nonce (evidence_of apphash nonce))
  answer_to apphash a (pica nonce) =
      reply_of tpmd_rpl_pica (calls.pica_map (evidence_of (ext.digest a.chain) nonce) a.chain)
  answer_to apphash a (unknown cmd body) = []

  -- The libraries and the TPM work: the calls of OpenSSL succeed, SHA-256 gives 32 bytes, the TPM quotes whatever it
  -- is given, and libcbor makes maps, the evidence for a hash and a nonce of 32 bytes each of no more than the buffer.
  pub record AreWorking : Type 0 where
    pub ctx : evp.ctx_new ≡ true
    pub works : (evp.init && evp.update_old && evp.update_digest && evp.final) ≡ true
    pub whole : (b : List ℕ) → length (ext.digest b) ≡ 32
    pub makes : (user : List ℕ) → quotes.make_tpm2_quote user ≡ some (quote' user, sign' user)
    pub is_quote : (user : List ℕ) → quotes.is_quote (quote' user) ≡ true
    pub some_evidence : (hash nonce : List ℕ) → 0 < length (evidence_of hash nonce)
    pub fits :
        (hash nonce : List ℕ)
        → length hash ≡ 32
        → length nonce ≡ 32
        → length (evidence_of hash nonce) ≤ buf_size
    pub some_attest : (nonce e : List ℕ) → 0 < length (calls.attest_map nonce e)
    pub some_pica : (e chain : List ℕ) → 0 < length (calls.pica_map e chain)

  quoted_evidence :
      (newhash nonce hash : List ℕ)
      → AreWorking
      → length hash ≡ 32
      → length nonce ≡ 32
      → make_tpm2_quote_with_pid ext evp quotes newhash nonce 32 buf_size hash 32
        ≡ (length (evidence_of hash nonce), evidence_of hash nonce)
  quoted_evidence newhash nonce hash w size whole =
      let user = ext.digest (take 32 hash ++ take 32 nonce) in
      quote_with_pid_works ext evp quotes newhash nonce hash (quote' user) (sign' user) buf_size
        w.ctx w.works w.whole size (w.makes user) (w.is_quote user) (w.some_evidence hash nonce)
        (w.fits hash nonce size whole)

  unsealed_whole :
      (sealed nonce unsealed : List ℕ)
      → calls.unseal sealed ≡ some nonce
      → length nonce ≡ 32
      → length unsealed ≡ 32
      → ecall_unseal calls sealed unsealed ≡ some nonce
  unfolding ecall_unseal
  unsealed_whole sealed nonce unsealed opened size room =
      let fits : ltb (length unsealed) (length nonce) ≡ false = ground (arith, size, room) in
      let rest : drop (length nonce) unsealed ≡ [] =
        drop_all (length nonce) unsealed (omega (arith, size, room)) in
      rw (ecall_unseal, opened, fits, rest, append-nil) refl

  reply_attest_lem :
      (nonce e : List ℕ)
      → length nonce ≡ 32
      → 0 < length (calls.attest_map nonce e)
      → reply_attest calls nonce e ≡ reply_of tpmd_rpl_attest (calls.attest_map nonce e)
  unfolding reply_attest
  reply_attest_lem nonce e size more =
      let all : take 32 nonce ≡ nonce = take_all 32 nonce (omega (arith, size)) in
      let some_map : (length (calls.attest_map nonce e) == 0) ≡ false = ground (arith, more) in
      rw (all, some_map) refl

  quoted_fits : (e : List ℕ) → length e ≤ buf_size → quoted (length e, e) ≡ some e
  quoted_fits e fits =
      let room : ltb buf_size (length e) ≡ false = ground (arith, fits) in rw room refl

  serve_attest_lem :
      (apphash : List ℕ) (a : Arrival) (sealed nonce : List ℕ)
      → AreWorking
      → length apphash ≡ 32
      → IsRequest a (attest sealed nonce)
      → serve_attest ext evp quotes calls apphash a sealed
        ≡ some (answer_to apphash a (attest sealed nonce))
  unfolding serve_attest
  serve_attest_lem apphash a sealed nonce w size (whole, opened, room) =
      let e = evidence_of apphash nonce in
      rw
        (
          unsealed_whole sealed nonce a.unsealed opened whole room,
          quoted_evidence a.newhash nonce apphash w size whole,
          quoted_fits e (w.fits apphash nonce size whole),
          reply_attest_lem nonce e whole (w.some_attest nonce e),
        )
        refl

  serve_pica_lem :
      (a : Arrival) (apphash nonce : List ℕ)
      → AreWorking
      → IsRequest a (pica nonce)
      → serve_pica ext evp quotes calls a nonce ≡ some (answer_to apphash a (pica nonce))
  unfolding serve_pica make_tpm2_pica answer_pica reply_pica
  serve_pica_lem a apphash nonce w whole =
      let hash = ext.digest a.chain in
      let e = evidence_of hash nonce in
      let all : take 32 nonce ≡ nonce = take_all 32 nonce (omega (arith, whole)) in
      let enough : ltb (length nonce) 32 ≡ false = ground (arith, whole) in
      let some_map : (length (calls.pica_map e a.chain) == 0) ≡ false =
        ground (arith, w.some_pica e a.chain) in
      rw
        (
          all,
          quoted_evidence a.newhash nonce hash w (w.whole a.chain) whole,
          quoted_fits e (w.fits hash nonce (w.whole a.chain) whole),
          enough,
          some_map,
        )
        refl

  pub serve_packet_lem :
      (apphash : List ℕ) (a : Arrival) (r : Request) (aux : ℕ)
      → AreWorking
      → length apphash ≡ 32
      → IsRequest a r
      → serve_packet ext evp quotes calls apphash a (request_packet aux r) (request_body r)
        ≡ some (answer_to apphash a r)
  unfolding serve_packet
  serve_packet_lem apphash a (hello body) aux w size ok = refl
  serve_packet_lem apphash a (attest sealed nonce) aux w size ok =
      serve_attest_lem apphash a sealed nonce w size ok
  serve_packet_lem apphash a (pica nonce) aux w size ok = serve_pica_lem a apphash nonce w ok
  serve_packet_lem apphash a (unknown cmd body) aux w size (no_hello, no_attest, no_pica) =
      let e1 : (cmd == tpmd_req_hello) ≡ false = ground (arith, no_hello) in
      let e2 : (cmd == tpmd_req_attest) ≡ false = ground (arith, no_attest) in
      let e3 : (cmd == tpmd_req_pica) ≡ false = ground (arith, no_pica) in rw (e1, e2, e3) refl
