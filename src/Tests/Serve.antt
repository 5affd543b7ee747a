-- ===== src/Tests/Serve.antt =====
-- Connections with a greeting, requests for evidence and an unknown command.
use portable_tls_ra.Base.{
  ℕ, ◌≡◌, refl, true, none, some, Option, List, [], ◌∷◌, ◌++◌, length, replicate, arith, inl, inr,
  le_bytes, ◌+◌, length-append,
}
use portable_tls_ra.Pica.Evidence.Types.{
  CborItem, cbor_uint, cbor_bytestring, cbor_string, cbor_other,
}
use portable_tls_ra.Sock.Defs.{received, recv_from, sock_recv}
use portable_tls_ra.Daemon.Defs.{encode_packet, readpacket}
use portable_tls_ra.Daemon.Quote.{QuoteCalls}
use portable_tls_ra.Daemon.Serve.{ServeCalls, Arrival, tpmddaemon}
use portable_tls_ra.Daemon.Answers.{
  Request, hello, attest, pica, unknown, request_body, request_packet, AreWorking,
}
use portable_tls_ra.Daemon.Served.{
  Session, arrivals, Brings, IsSession, answers_to, tpmddaemon-answers,
}
use portable_tls_ra.Tests.Evidence.{evp}
use portable_tls_ra.Tests.Daemon.{lengths, nonce}

-- Bytes of CBOR for short names and for strings of bytes below 256.
abbrev item_bytes : CborItem → List ℕ
item_bytes (cbor_uint n) = n ∷ []
item_bytes (cbor_bytestring b) = 88 ∷ length b ∷ b
item_bytes (cbor_string s) = (96 + length s) ∷ s
item_bytes cbor_other = 247 ∷ []

abbrev map_bytes : List (CborItem × CborItem) → List ℕ
map_bytes [] = []
map_bytes (p ∷ ps) = item_bytes p.0 ++ item_bytes p.1 ++ map_bytes ps

abbrev quotes : QuoteCalls
quotes = record {
  make_tpm2_quote = λ user. some (user, 8 ∷ []);
  is_quote = λ q. true;
  serialize = λ entries. (160 + length entries) ∷ map_bytes entries;
}

-- A seal of one byte.
abbrev unseal : List ℕ → Option (List ℕ)
unseal [] = none
unseal (x ∷ sealed) = some sealed

abbrev calls : ServeCalls
calls = record { unseal = unseal; attest_map = λ n e. 1 ∷ n ++ e; pica_map = λ e c. 2 ∷ e ++ c }

abbrev quote' : List ℕ → List ℕ
quote' user = user

abbrev sign' : List ℕ → List ℕ
sign' user = 8 ∷ []

abbrev arrival : Request → Arrival
arrival r = record {
  heads = received (encode_packet (request_packet 0 r) []) ∷ [];
  bodies = received (request_body r) ∷ [];
  stack = [];
  heap = request_body r;
  unsealed = replicate 32 0;
  newhash = [];
  stack_cmd = 0;
  chain = 5 ∷ 5 ∷ [];
}

abbrev gone : Arrival
gone = record (arrival (hello [])) { heads = received [] ∷ [] }

abbrev requests : List (Arrival × Request)
requests =
    (arrival (hello []), hello [])
    ∷ (arrival (attest (7 ∷ nonce) nonce), attest (7 ∷ nonce) nonce)
    ∷ (arrival (pica nonce), pica nonce)
    ∷ (arrival (unknown 9 (1 ∷ [])), unknown 9 (1 ∷ []))
    ∷ []

abbrev session : Session
session = record { apphash = replicate 32 4; requests = requests; last = gone }

working : AreWorking lengths evp quotes calls quote' sign'
working = record {
  ctx = refl;
  works = refl;
  whole = λ b. refl;
  makes = λ user. refl;
  is_quote = λ user. refl;
  some_evidence = λ h n. omega arith;
  fits = λ h n size whole. omega (arith, size, length-append h []);
  some_attest = λ n e. omega arith;
  some_pica = λ e c. omega arith;
}

brings : Brings lengths evp quotes calls quote' sign' requests
unfolding encode_packet le_bytes
brings = (
  ((0, (omega arith, omega arith, omega arith), (omega arith, inl refl), refl, inl refl), tt),
  (
    (
      (
        0,
        (omega arith, omega arith, omega arith),
        (omega arith, inl refl),
        refl,
        inr (omega arith, (omega arith, inl refl)),
      ),
      (refl, refl, refl),
    ),
    (
      (
        (
          0,
          (omega arith, omega arith, omega arith),
          (omega arith, inl refl),
          refl,
          inr (omega arith, (omega arith, inl refl)),
        ),
        refl,
      ),
      (
        (
          (
            0,
            (omega arith, omega arith, omega arith),
            (omega arith, inl refl),
            refl,
            inr (omega arith, (omega arith, inl refl)),
          ),
          (omega arith, omega arith, omega arith),
        ),
        tt,
      ),
    ),
  ),
)

is_session : IsSession lengths evp quotes calls quote' sign' session
unfolding readpacket recv_from sock_recv
is_session = (refl, brings, refl)

tpmddaemon-answers_example :
    tpmddaemon lengths evp quotes calls ((replicate 32 4, arrivals session) ∷ [])
    ≡ some (answers_to lengths evp quotes calls quote' sign' (replicate 32 4) requests ∷ [])
tpmddaemon-answers_example =
    tpmddaemon-answers lengths evp quotes calls quote' sign' (session ∷ []) working (is_session, tt)
