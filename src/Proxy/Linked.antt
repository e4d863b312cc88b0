-- ===== src/Proxy/Linked.antt =====
-- A `slaveProxy` whose connection leads to `ProxyProvide` (anyes/proxy.go).
use trpo.Prelude.{ℕ, ◌≡◌, refl, ap, ◌∙◌, List, [], ◌∷◌, map, Option, none, some, String}
use trpo.Prelude.Float.{Float}
use trpo.Prelude.Failure.{Error, text, ctx}
use trpo.Master.{Rollout}
use trpo.Slave.{StopConds}
use trpo.Proxy.{
  Packet, SlaveApi, Connection, packet, failed, got, new_packet_err, respond, error_of, with_ctx,
  proxy_init, proxy_run, proxy_update,
}

-- The calls of a slave, and what they return.
pub data Request (F D : Type 0) : Type 0 where
  init : D → ℕ → ℕ → Request F D
  run : Option StopConds → F → ℕ → Request F D
  update : List F → List ℕ → Request F D

pub data Answer (F : Type 0) : Type 0 where
  inited : Option Error → Answer F
  ran : Option (Rollout F) → Option Error → Answer F
  summed : ℕ → Option Error → Answer F

module _ {F D W : Type 0} ⦃fl : Float F⦄ where
  -- Calls of a slave, one after the other.
  abbrev pub call : SlaveApi F D W → Request F D → W → Answer F × W
  call slave (init model seed size) w = let (e, w') = slave.init w model seed size in (inited e, w')
  call slave (run stop scale seed) w =
      let (r, w') = slave.run w stop scale seed in (ran r.0 r.1, w')
  call slave (update scales seeds) w =
      let (r, w') = slave.update w scales seeds in (summed r.0 r.1, w')

  unfoldable pub calls : SlaveApi F D W → List (Request F D) → W → List (Answer F) × W
  calls slave [] w = ([], w)
  calls slave (r ∷ rs) w =
      let (a, w1) = call slave r w in let (answers, w2) = calls slave rs w1 in (a ∷ answers, w2)

module _ {F D C : Type 0} ⦃fl : Float F⦄ (no_data : D) (message : Error → String)
    (conn : Connection F D C) where
  -- A proxy is a slave, over the states of its connection.
  abbrev pub proxy : SlaveApi F D C
  proxy = record {
    init = proxy_init no_data message conn;
    run = proxy_run no_data message conn;
    update = proxy_update no_data message conn;
  }

module _ {F D W : Type 0} ⦃fl : Float F⦄ (no_data : D) (message : Error → String)
    (slave : SlaveApi F D W) (gone : Error) where
  -- A connection to a provider that serves `slave` and answers each request: what it has sent waits to be
  -- received.
  abbrev send_to : W × Option (Packet F D) → Packet F D → Option Error × W × Option (Packet F D)
  send_to (w, waiting) p = elim (respond no_data message slave p p.type w) [
    | none ↦ (none, w, none)
    | some (response, w') ↦ (none, w', some response)
  ]

  abbrev pub linked : Connection F D (W × Option (Packet F D))
  linked = record {
    send = λ c p. let (e, w, waiting) = send_to c p in (e, (w, waiting));
    receive = λ (w, waiting). elim waiting [
      | none ↦ (failed gone, (w, none))
      | some p ↦ (got (packet p), (w, none))
    ];
  }

  -- An error arrives as its text, with the context of the call.
  abbrev pub relayed : String → Option Error → Option Error
  relayed name none = none
  relayed name (some e) = some (ctx name (text (message e)))

  abbrev pub relay : Answer F → Answer F
  relay (inited e) = inited (relayed "slave proxy init" e)
  relay (ran r e) = ran r (relayed "slave proxy run" e)
  relay (summed sum e) = summed sum (relayed "slave proxy update" e)

  relayed-error :
      (name : String) (e : Option Error)
      → with_ctx name (error_of (new_packet_err {F = F} no_data message e).err_text)
        ≡ relayed name e
  relayed-error name none = refl
  relayed-error name (some e) = refl

  call-proxy :
      (r : Request F D) (w : W)
      → call (proxy no_data message linked) r (w, none)
        ≡ (let (a, w') = call slave r w in (relay a, (w', none)))
  unfolding proxy_init proxy_run proxy_update
  call-proxy (init model seed size) w =
      let (e, w') = slave.init w model seed size in
      ap (λ x. (inited x, (w', none))) (relayed-error "slave proxy init" e)
  call-proxy (run stop scale seed) w =
      let (r, w') = slave.run w stop scale seed in
      ap (λ x. (ran r.0 x, (w', none))) (relayed-error "slave proxy run" r.1)
  call-proxy (update scales seeds) w =
      let (r, w') = slave.update w scales seeds in
      ap (λ x. (summed r.0 x, (w', none))) (relayed-error "slave proxy update" r.1)

  -- Whatever calls are made, one after the other: a proxy that is connected to a provider answers as the
  -- slave that is provided, with the same rollouts and checksums, and an error for each error, which has its
  -- text and the context of the call; and the slave gets to the same state as by the calls themselves.
  pub calls-proxy :
      (rs : List (Request F D)) (w : W)
      → calls (proxy no_data message linked) rs (w, none)
        ≡ (let (answers, w') = calls slave rs w in (map relay answers, (w', none)))
  unfolding calls
  calls-proxy [] w = refl
  calls-proxy (r ∷ rs) w =
      let (a, w1) = call slave r w in
      let first = call-proxy r w in
      ap
        (λ x. (
          x.0 ∷ (calls (proxy no_data message linked) rs x.1).0,
          (calls (proxy no_data message linked) rs x.1).1,
        ))
        first
      ∙ ap (λ x. (relay a ∷ x.0, x.1)) (calls-proxy rs w1)
