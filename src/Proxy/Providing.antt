-- ===== src/Proxy/Providing.antt =====
-- The loop of `ProxyProvide` (anyes/proxy.go).
use trpo.Prelude.{
  Option-cases, inl, inr, suc, ◌≡◌, refl, List, [], ◌∷◌, ◌++◌, append_assoc, append-nil, length,
  none, some, String, ◌∙◌,
}
use trpo.Prelude.Float.{Float}
use trpo.Prelude.Failure.{Error, text, ctx}
use trpo.Proxy.{
  Packet, SlaveApi, Connection, Object, packet, Received, failed, got, respond, provide_loop,
  proxy_provide,
}

-- A connection on which some packets arrive and then `last`, and which keeps what is sent.
pub record Script (F D : Type 0) : Type 0 where
  pub arriving : List (Packet F D)
  pub last : Received (Object F D)
  pub sent : List (Packet F D)

abbrev pub scripted : {F D : Type 0} → Connection F D (Script F D)
scripted = record {
  send = λ c p. (none, record c { sent = c.sent ++ p ∷ [] });
  receive = λ c. elim c.arriving [
    | [] ↦ (c.last, c)
    | p ∷ ps ↦ (got (packet p), record c { arriving = ps })
  ];
}

module _ {F D W : Type 0} ⦃fl : Float F⦄ (no_data : D) (message : Error → String)
    (slave : SlaveApi F D W) where
  -- The responses to some requests, one after the other, up to one of an unknown type; what is left then,
  -- and the slave's last state.
  pub responses : List (Packet F D) → W → List (Packet F D) × List (Packet F D) × W
  responses [] w = ([], [], w)
  responses (p ∷ ps) w = elim (respond no_data message slave p p.type w) [
    | none ↦ ([], p ∷ ps, w)
    | some (r, w') ↦ let (rs, left, w'') = responses ps w' in (r ∷ rs, left, w'')
  ]

  -- The error at the end, and what has not been read then.
  abbrev pub stop_at : Error → List (Packet F D) → Error × List (Packet F D)
  stop_at last [] = (last, [])
  stop_at last (p ∷ ps) = (text "unknown packet type", ps)

  abbrev script : List (Packet F D) → Error → List (Packet F D) → Script F D
  script ps last sent = record { arriving = ps; last = failed last; sent = sent }

  provide_loop-responses :
      (ps : List (Packet F D)) (last : Error) (sent : List (Packet F D)) (w : W)
      → provide_loop no_data message slave scripted (suc (length ps)) (script ps last sent) w ≡ (
          let (rs, left, w') = responses ps w in
          let (e, unread) = stop_at last left in some (e, script unread last (sent ++ rs), w'))
  unfolding provide_loop responses
  provide_loop-responses [] last sent w = rw (append-nil sent) refl
  provide_loop-responses (p ∷ ps) last sent w =
      elim (Option-cases (respond no_data message slave p p.type w)) [
        | inl no_type ↦ rw (no_type, append-nil sent, responses, provide_loop) refl
        | inr ((r, w'), known) ↦
            rw (known, responses, provide_loop)
              (provide_loop-responses ps last (sent ++ r ∷ []) w'
                ∙ rw (append_assoc sent (r ∷ []) _) refl)
      ]

  -- For any packets that arrive before the connection fails: `ProxyProvide` ends within one more round than
  -- there are packets. It has sent the slave's response to each request, one after the other and in their
  -- order, up to the first packet of an unknown type, which ends it; otherwise the failure of the connection
  -- does.
  pub proxy_provide-responses :
      (ps : List (Packet F D)) (last : Error) (w : W)
      → proxy_provide no_data message slave scripted (suc (length ps)) (script ps last []) w ≡ (
          let (rs, left, w') = responses ps w in
          let (e, unread) = stop_at last left in
          some (ctx "provide proxy" e, script unread last rs, w'))
  unfolding proxy_provide
  proxy_provide-responses ps last w = rw (provide_loop-responses ps last [] w) refl
