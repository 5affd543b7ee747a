-- ===== src/Tests/Daemon.antt =====
-- A request to the daemon, answered, and one that is answered with too much.
use portable_tls_ra.Base.{
  ℕ, ◌≡◌, length, take, bytes_eq, refl, true, some, List, [], ◌∷◌, ◌++◌, replicate, arith, inl, inr,
  le_bytes,
}
use portable_tls_ra.Sock.Defs.{wrote, received}
use portable_tls_ra.Daemon.Defs.{
  TpmdPacket, encode_packet, RequestCalls, request_head, pica_request_measure, readpacket,
  answer_pica,
}
use portable_tls_ra.Daemon.Exchange.{requested, pica_request_measure-answered}
use portable_tls_ra.Pica.Evidence.Types.{External}
use portable_tls_ra.Daemon.Quote.{QuoteCalls}
use portable_tls_ra.Tests.Evidence.{external}

abbrev pub nonce : List ℕ
nonce = replicate 32 6

-- The quote and the processes of a nonce, and the map of both.
abbrev make_pica : List ℕ → List ℕ × List ℕ
make_pica n = (1 ∷ [], 2 ∷ [])

abbrev serialize : List ℕ → List ℕ → List ℕ
serialize q p = q ++ p

-- The head of a reply of 2 bytes, and of one of 9 bytes.
abbrev reply : TpmdPacket
reply = record { cmd = 259; aux = 0; len = 2 }

abbrev long_reply : TpmdPacket
long_reply = record { cmd = 259; aux = 0; len = 9 }

abbrev calls : RequestCalls
calls = record {
  connects = true;
  sends = wrote 40 ∷ [];
  heads = received (encode_packet reply []) ∷ [];
  bodies = received (1 ∷ []) ∷ received (2 ∷ []) ∷ [];
}

abbrev long_calls : RequestCalls
long_calls = record calls { heads = received (encode_packet long_reply []) ∷ [] }

pica_request_measure_example :
    (pica_request_measure calls 0 nonce (0 ∷ 0 ∷ 0 ∷ []) 3
      ≡ some (encode_packet (request_head 0) nonce, requested (1 ∷ 2 ∷ 0 ∷ []) 2))
    × (readpacket (received (encode_packet (request_head 0) []) ∷ []) (received nonce ∷ []) [] nonce
        ≡ some (some (request_head 0, nonce)))
    × (answer_pica make_pica serialize 0 nonce ≡ some (encode_packet reply (1 ∷ 2 ∷ [])))
unfolding encode_packet le_bytes
pica_request_measure_example =
    pica_request_measure-answered make_pica serialize 0 calls 0 nonce (0 ∷ 0 ∷ 0 ∷ []) 3
      (received (encode_packet (request_head 0) []) ∷ []) (received nonce ∷ []) [] nonce refl
      (omega arith) refl (inr (omega arith, omega arith, refl)) (omega arith, inl refl)
      (omega arith, inl refl) refl (omega arith) (omega arith) (omega arith) (omega arith, inl refl)
      (omega arith, inr (2 ∷ [], omega arith, refl, (omega arith, inl refl)))

-- A hash of 32 bytes that tells the length of what is hashed.
abbrev pub lengths : External ℕ
lengths = record external { digest = λ b. replicate 32 (length b) }

-- The hash of two bytes.
abbrev two_bytes : List ℕ
two_bytes = replicate 32 2

-- A TPM whose quote is the user data, and a serialisation of a byte for each entry.
abbrev quote_calls : QuoteCalls
quote_calls = record {
  make_tpm2_quote = λ user. some (user, 8 ∷ []);
  is_quote = λ q. bytes_eq (take 1 q) (64 ∷ []);
  serialize = λ entries. replicate (length entries) 9;
}
