-- ===== src/Daemon/Exchange.antt =====
-- A request of the client and the answer of the daemon, from end to end.
use portable_tls_ra.Base.{
  ℕ, ◌+◌, ◌^◌, ◌<◌, ◌≤◌, ◌≡◌, refl, ap, sym, subst, ◌∙◌, true, false, none, some, List, [], ◌++◌,
  length, take, drop, take_all, drop_all, append-nil, append_assoc, ltb, ◌==◌, le_bytes,
  le_word-take, drop-le_bytes, length-le_bytes-append, word16-Fits, word32-Fits, arith,
}
use portable_tls_ra.Sock.Defs.{Received, recv_ok, sock_send, sock_recv}
use portable_tls_ra.Sock.Send.{Progresses, sock_send_lem}
use portable_tls_ra.Sock.Recv.{Delivers, sock_recv_lem}
use portable_tls_ra.Daemon.Defs.{
  TpmdPacket, packet_size, encode_packet, decode_packet, tpmd_rpl_pica, tpmd_aux_ok, RequestCalls,
  Requested, request_head, receive_measure, pica_request_measure, readpacket, reply_pica,
  answer_pica,
}

-- The members of the head have the width of their types.
abbrev pub IsPacket : TpmdPacket → Type 0
IsPacket head = (head.cmd < 2 ^ 16) × (head.aux < 2 ^ 16) × (head.len < 2 ^ 32)

decode_packet-encode_packet :
    (head : TpmdPacket) (rest : List ℕ)
    → IsPacket head
    → decode_packet (encode_packet head rest) ≡ head
unfolding decode_packet encode_packet
decode_packet-encode_packet head rest ok =
    let cmd = le_word-take 2 head.cmd (word16-Fits head.cmd ok.0) in
    let aux = le_word-take 2 head.aux (word16-Fits head.aux ok.1) in
    let len = le_word-take 4 head.len (word32-Fits head.len ok.2) in
    simp (drop-le_bytes, cmd, aux, len)

length-encode_packet :
    (head : TpmdPacket) (rest : List ℕ) → length (encode_packet head rest) ≡ 8 + length rest
unfolding encode_packet
length-encode_packet head rest = simp length-le_bytes-append (omega arith)

encode_packet-append :
    (head : TpmdPacket) (rest : List ℕ) → encode_packet head [] ++ rest ≡ encode_packet head rest
unfolding encode_packet
encode_packet-append head rest =
    append_assoc (le_bytes 2 head.cmd) (le_bytes 2 head.aux ++ (le_bytes 4 head.len ++ [])) rest
    ∙ ap (◌++◌ (le_bytes 2 head.cmd)) (
        append_assoc (le_bytes 2 head.aux) (le_bytes 4 head.len ++ []) rest
        ∙ ap (◌++◌ (le_bytes 2 head.aux)) (append_assoc (le_bytes 4 head.len) [] rest))

-- A head that is delivered in pieces is received, in front of what is left of the buffer.
received_head :
    (rs : List Received) (buf : List ℕ) (head : TpmdPacket)
    → Delivers rs (encode_packet head [])
    → sock_recv rs buf packet_size ≡ some (recv_ok (encode_packet head (drop packet_size buf)))
received_head rs buf head d =
    let size : length (encode_packet head []) ≡ 8 = omega (arith, length-encode_packet head []) in
    let all = sock_recv_lem rs buf (encode_packet head []) (omega (arith, size)) d in
    let all' =
      subst (λ n. sock_recv rs buf n ≡ some (recv_ok (encode_packet head [] ++ drop n buf))) size
        all in
    all' ∙ ap (λ b. some (recv_ok b)) (encode_packet-append head (drop packet_size buf))

-- The result after a reply of `n` bytes.
abbrev pub requested : List ℕ → ℕ → Requested
requested stored n = record { success = true; measure = stored; size = some n }

receive_measure_lem :
    (calls : RequestCalls) (aux : ℕ) (measure : List ℕ) (msz : ℕ) (head : TpmdPacket)
    (body : List ℕ)
    → IsPacket head
    → Delivers calls.heads (encode_packet head [])
    → head.len ≡ length body
    → length body ≤ msz
    → Delivers calls.bodies body
    → receive_measure calls aux measure msz
      ≡ some (requested (body ++ drop (length body) measure) (length body))
unfolding receive_measure
receive_measure_lem calls aux measure msz head body ok d_head len fits d_body =
    let front = received_head calls.heads (encode_packet (request_head aux) []) head d_head in
    let decoded =
      decode_packet-encode_packet head (drop packet_size (encode_packet (request_head aux) []))
        ok in
    let room : ltb msz (length body) ≡ false = ground (arith, fits) in
    let all = sock_recv_lem calls.bodies measure body (omega (arith, ok.2, len)) d_body in
    let stored = body ++ drop (length body) measure in
    rw (front, decoded, len, room, all)
      (ap (λ n. some (requested stored n)) (ap (λ h. h.len) decoded ∙ len))

pub readpacket_lem :
    (heads bodies : List Received) (stack heap : List ℕ) (head : TpmdPacket) (body : List ℕ)
    → IsPacket head
    → Delivers heads (encode_packet head [])
    → head.len ≡ length body
    → 0 < length body
    → length body ≡ length heap
    → Delivers bodies body
    → readpacket heads bodies stack heap ≡ some (some (head, body))
unfolding readpacket
readpacket_lem heads bodies stack heap head body ok d_head len more room d_body =
    let front = received_head heads stack head d_head in
    let decoded = decode_packet-encode_packet head (drop packet_size stack) ok in
    let some_data : ltb 0 head.len ≡ true = ground (arith, more, len) in
    let own : take head.len heap ≡ heap = take_all head.len heap (omega (arith, room, len)) in
    let rest : drop (length body) heap ≡ [] = drop_all (length body) heap (omega (arith, room)) in
    let all =
      sock_recv_lem bodies heap body (omega (arith, ok.2, len)) d_body
      ∙ ap (λ r. some (recv_ok (body ++ r))) rest
      ∙ ap (λ b. some (recv_ok b)) (append-nil body) in
    let all' = subst (λ n. sock_recv bodies heap n ≡ some (recv_ok body)) (sym len) all in
    rw (front, decoded, some_data, own, all') (ap (λ h. some (some (h, body))) decoded)

-- A head that announces no data is the whole packet.
pub readpacket_empty :
    (heads bodies : List Received) (stack heap : List ℕ) (head : TpmdPacket)
    → IsPacket head
    → Delivers heads (encode_packet head [])
    → head.len ≡ 0
    → readpacket heads bodies stack heap ≡ some (some (head, []))
unfolding readpacket
readpacket_empty heads bodies stack heap head ok d_head len =
    let front = received_head heads stack head d_head in
    let decoded = decode_packet-encode_packet head (drop packet_size stack) ok in
    let no_data : ltb 0 head.len ≡ false = ground (arith, len) in rw (front, decoded, no_data) refl

module _ (make_tpm2_pica : List ℕ → List ℕ × List ℕ) (serialize : List ℕ → List ℕ → List ℕ)
    (stack_cmd : ℕ) where
  -- The map that answers a nonce, and its head.
  abbrev pub answer_of : List ℕ → List ℕ
  answer_of nonce = serialize (make_tpm2_pica nonce).0 (make_tpm2_pica nonce).1

  abbrev pub reply_head : List ℕ → TpmdPacket
  reply_head nonce = record {
    cmd = tpmd_rpl_pica;
    aux = tpmd_aux_ok;
    len = length (answer_of nonce);
  }

  answer_pica_lem :
      (nonce : List ℕ)
      → length nonce ≡ 32
      → 0 < length (answer_of nonce)
      → answer_pica make_tpm2_pica serialize stack_cmd nonce
        ≡ some (encode_packet (reply_head nonce) (answer_of nonce))
  unfolding answer_pica reply_pica
  answer_pica_lem nonce whole more =
      let all : take 32 nonce ≡ nonce = take_all 32 nonce (omega (arith, whole)) in
      let enough : ltb (length nonce) 32 ≡ false = ground (arith, whole) in
      let some_map : (length (answer_of nonce) == 0) ≡ false = ground (arith, more) in
      rw (enough, all, some_map) refl

  -- For a nonce of 32 bytes, with a daemon that can be reached, writes that go on, and a request and a reply
  -- that arrive in pieces of at least one byte: pica_request_measure sends the head of the request
  -- with the nonce, from which readpacket takes the head and the nonce; the daemon answers a map, if
  -- libcbor makes one of less than 2^32 bytes, behind a head with its length; and the client ends with
  -- 0, with the map at the start of its buffer, if it is no larger than this, and its length.
  pub pica_request_measure-answered :
      (calls : RequestCalls) (aux : ℕ) (nonce measure : List ℕ) (msz : ℕ)
      (heads bodies : List Received) (stack heap : List ℕ)
      → length nonce ≡ 32
      → aux < 2 ^ 16
      → calls.connects ≡ true
      → Progresses calls.sends 40
      → Delivers heads (encode_packet (request_head aux) [])
      → Delivers bodies nonce
      → length heap ≡ 32
      → 0 < length (answer_of nonce)
      → length (answer_of nonce) < 2 ^ 32
      → length (answer_of nonce) ≤ msz
      → Delivers calls.heads (encode_packet (reply_head nonce) [])
      → Delivers calls.bodies (answer_of nonce)
      → (pica_request_measure calls aux nonce measure msz
          ≡ some (
            encode_packet (request_head aux) nonce,
            requested
                (answer_of nonce ++ drop (length (answer_of nonce)) measure)
                (length (answer_of nonce)),
          ))
        × (readpacket heads bodies stack heap ≡ some (some (request_head aux, nonce)))
        × (answer_pica make_tpm2_pica serialize stack_cmd nonce
            ≡ some (encode_packet (reply_head nonce) (answer_of nonce)))
  unfolding pica_request_measure
  pica_request_measure-answered calls aux nonce measure msz heads bodies stack heap whole small
        reach sends d_heads d_nonce room more short fits d_reply d_answer =
      let request = encode_packet (request_head aux) nonce in
      let size : length request ≡ 40 =
        omega (arith, length-encode_packet (request_head aux) nonce, whole) in
      let sent =
        sock_send_lem calls.sends request (omega (arith, size)) (omega (arith, size))
          (subst (Progresses calls.sends) (sym size) sends) in
      let sent' = subst (λ n. sock_send calls.sends request n ≡ some (true, request)) size sent in
      let all : take 32 nonce ≡ nonce = take_all 32 nonce (omega (arith, whole)) in
      let reply_ok : IsPacket (reply_head nonce) = (omega arith, omega arith, short) in
      let received =
        receive_measure_lem (record calls { connects = true }) aux measure msz (reply_head nonce)
          (answer_of nonce) reply_ok d_reply refl fits d_answer in
      let request_ok : IsPacket (request_head aux) = (omega arith, small, omega arith) in
      (
        rw (reach, all, sent', received) refl,
        readpacket_lem heads bodies stack heap (request_head aux) nonce request_ok d_heads
            (sym whole) (omega (arith, whole)) (whole ∙ sym room) d_nonce,
        answer_pica_lem nonce whole more,
      )

-- A reply that announces more than the buffer holds is reported as a success: after a request that went
-- out, with a head that arrives in pieces, pica_request_measure returns 0, and has stored neither data nor
-- a size.
pub pica_request_measure_long :
    (calls : RequestCalls) (aux : ℕ) (nonce measure : List ℕ) (msz : ℕ) (head : TpmdPacket)
    → length nonce ≡ 32
    → calls.connects ≡ true
    → Progresses calls.sends 40
    → IsPacket head
    → msz < head.len
    → Delivers calls.heads (encode_packet head [])
    → pica_request_measure calls aux nonce measure msz
      ≡ some (
        encode_packet (request_head aux) nonce,
        record { success = true; measure = measure; size = none },
      )
unfolding pica_request_measure receive_measure
pica_request_measure_long calls aux nonce measure msz head whole reach sends ok long d_head =
    let request = encode_packet (request_head aux) nonce in
    let size : length request ≡ 40 =
      omega (arith, length-encode_packet (request_head aux) nonce, whole) in
    let sent =
      sock_send_lem calls.sends request (omega (arith, size)) (omega (arith, size))
        (subst (Progresses calls.sends) (sym size) sends) in
    let sent' = subst (λ n. sock_send calls.sends request n ≡ some (true, request)) size sent in
    let all : take 32 nonce ≡ nonce = take_all 32 nonce (omega (arith, whole)) in
    let front = received_head calls.heads (encode_packet (request_head aux) []) head d_head in
    let decoded =
      decode_packet-encode_packet head (drop packet_size (encode_packet (request_head aux) []))
        ok in
    let too_long : ltb msz head.len ≡ true = ground (arith, long) in
    rw (reach, all, sent', front, decoded, too_long) refl
