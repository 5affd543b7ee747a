-- ===== src/Daemon/Served.antt =====
-- What the daemon answers on its connections.
use portable_tls_ra.Base.{
  ℕ, ◌≡◌, refl, ap, sym, ◌∙◌, none, some, List, [], ◌∷◌, ◌++◌, append_assoc, append-nil, length,
  map, All,
}
use portable_tls_ra.Pica.Evidence.Types.{External, EvpCalls}
use portable_tls_ra.Daemon.Defs.{readpacket}
use portable_tls_ra.Daemon.Quote.{QuoteCalls}
use portable_tls_ra.Daemon.Serve.{ServeCalls, Arrival, closed, serve_from, tpmddaemon}
use portable_tls_ra.Daemon.Answers.{
  Request, Arrives, AreWorking, IsRequest, answer_to, serve_packet_lem, received_request,
}

-- A connection that brings its requests and is then closed by the client.
pub record Session : Type 0 where
  pub apphash : List ℕ
  pub requests : List (Arrival × Request)
  pub last : Arrival

abbrev pub arrivals : Session → List Arrival
arrivals s = map (λ p. p.0) s.requests ++ (s.last ∷ [])

module _ {Key : Type 0} (ext : External Key) (evp : EvpCalls) (quotes : QuoteCalls)
    (calls : ServeCalls) (quote' sign' : List ℕ → List ℕ) where
  -- Each request that a connection brings arrives, with what comes along.
  abbrev pub Brings : List (Arrival × Request) → Type 0
  Brings = All (λ p. Arrives p.0 p.1 × IsRequest ext evp quotes calls quote' sign' p.0 p.1)

  abbrev pub answers_to : List ℕ → List (Arrival × Request) → List ℕ
  answers_to apphash [] = []
  answers_to apphash ((a, r) ∷ rest) =
      answer_to ext evp quotes calls quote' sign' apphash a r ++ answers_to apphash rest

  serve_from-answers :
      (apphash : List ℕ) (rs : List (Arrival × Request)) (rest : List Arrival) (out : List ℕ)
      → AreWorking ext evp quotes calls quote' sign'
      → length apphash ≡ 32
      → Brings rs
      → serve_from ext evp quotes calls apphash (map (λ p. p.0) rs ++ rest) out
        ≡ serve_from ext evp quotes calls apphash rest (out ++ answers_to apphash rs)
  unfolding serve_from
  serve_from-answers apphash [] rest out w size all = rw append-nil refl
  serve_from-answers apphash ((a, r) ∷ rs) rest out w size ((arrives, ok), all) =
      let packet = received_request a r arrives in
      let reply =
        serve_packet_lem ext evp quotes calls quote' sign' apphash a r arrives.0 w size ok in
      let ih =
        serve_from-answers apphash rs rest
          (out ++ answer_to ext evp quotes calls quote' sign' apphash a r) w size all in
      rw (serve_from, packet, reply)
        (ih
          ∙ ap (λ o. serve_from ext evp quotes calls apphash rest o)
              (append_assoc out (answer_to ext evp quotes calls quote' sign' apphash a r)
                (answers_to apphash rs)))

  abbrev pub IsSession : Session → Type 0
  IsSession s =
      (length s.apphash ≡ 32)
      × Brings s.requests
      × (readpacket s.last.heads s.last.bodies s.last.stack s.last.heap ≡ some none)

  serve-session :
      (s : Session)
      → AreWorking ext evp quotes calls quote' sign'
      → IsSession s
      → serve_from ext evp quotes calls s.apphash (arrivals s) []
        ≡ some (answers_to s.apphash s.requests, closed)
  unfolding serve_from
  serve-session s w (size, all, ended) =
      serve_from-answers s.apphash s.requests (s.last ∷ []) [] w size all
      ∙ rw (serve_from, ended) refl

  tpmddaemon-served :
      (ss : List Session) (rest : List (List ℕ × List Arrival)) (outs : List (List ℕ))
      → AreWorking ext evp quotes calls quote' sign'
      → All IsSession ss
      → tpmddaemon ext evp quotes calls rest ≡ some outs
      → tpmddaemon ext evp quotes calls (map (λ s. (s.apphash, arrivals s)) ss ++ rest)
        ≡ some (map (λ s. answers_to s.apphash s.requests) ss ++ outs)
  unfolding tpmddaemon
  tpmddaemon-served [] rest outs w all later = later
  tpmddaemon-served (s ∷ ss) rest outs w (ok, all) later =
      rw (tpmddaemon, serve-session s w ok, tpmddaemon-served ss rest outs w all later) refl

  -- With libraries and a TPM that work, where the evidence for a hash and a nonce of 32 bytes each fits the buffer, the
  -- daemon serves connections that bring requests in pieces, with nonces of 32 bytes, and are then closed one
  -- after another: on each it sends the promised answers to its requests, in their order, and nothing else.
  pub tpmddaemon-answers :
      (ss : List Session)
      → AreWorking ext evp quotes calls quote' sign'
      → All IsSession ss
      → tpmddaemon ext evp quotes calls (map (λ s. (s.apphash, arrivals s)) ss)
        ≡ some (map (λ s. answers_to s.apphash s.requests) ss)
  unfolding tpmddaemon
  tpmddaemon-answers ss w all =
      let conns : List (List ℕ × List Arrival) = map (λ s. (s.apphash, arrivals s)) ss in
      let outs : List (List ℕ) = map (λ s. answers_to s.apphash s.requests) ss in
      ap (tpmddaemon ext evp quotes calls) (sym (append-nil conns))
      ∙ tpmddaemon-served ss [] [] w all refl
      ∙ ap (λ o. some o) (append-nil outs)
