-- ===== src/Proxy.antt =====
-- anyes/proxy.go: a slave at the other end of a connection. The connection (gobplexer and gob), the slave
-- behind it, the serialized parameters and the text of an error are parameters.
pub mod Linked
pub mod Providing
mod Tests
use trpo.Prelude.{
  ℕ, zero, suc, List, [], ◌∷◌, ◌++◌, Bool, Option, none, some, String, if◌then◌else◌,
}
use trpo.Prelude.Float.{Float}
use trpo.Prelude.Failure.{Error, text, ctx, Result, panic, err, ok}
use trpo.Master.{Rollout}
use trpo.Slave.{StopConds}

pub data PacketType : Type 0 where
  packet_init packet_run packet_update : PacketType
  unknown : ℕ → PacketType

pub record Packet (F D : Type 0) : Type 0 where
  pub type : PacketType
  pub init_seed : ℕ
  pub init_size : ℕ
  pub init_model : D
  pub stop : Option StopConds
  pub scale : F
  pub seed : ℕ
  pub rollout : Option (Rollout F)
  pub scales : List F
  pub seeds : List ℕ
  pub checksum : ℕ
  pub err_text : Option String

-- `Slave`, over its states `W`
pub record SlaveApi (F D W : Type 0) : Type 0 where
  pub init : W → D → ℕ → ℕ → Option Error × W
  pub run : W → Option StopConds → F → ℕ → (Option (Rollout F) × Option Error) × W
  pub update : W → List F → List ℕ → (ℕ × Option Error) × W

-- What is received: a packet, or a value of another type.
pub data Object (F D : Type 0) : Type 0 where
  packet : Packet F D → Object F D
  other : Object F D

-- What a call that receives returns.
pub data Received (A : Type 0) : Type 0 where
  failed : Error → Received A
  got : A → Received A

-- `gobplexer.Connection`, over its states `C`
pub record Connection (F D C : Type 0) : Type 0 where
  pub send : C → Packet F D → Option Error × C
  pub receive : C → Received (Object F D) × C

-- `receivePacket`
abbrev pub packet_of : {F D : Type 0} → Received (Object F D) → Received (Packet F D)
packet_of (failed e) = failed e
packet_of (got other) = failed (text "bad packet type")
packet_of (got (packet p)) = got p

-- `errors.New(*p.Err)` if there is one
abbrev pub error_of : Option String → Option Error
error_of none = none
error_of (some t) = some (text t)

-- A deferred `essentials.AddCtxTo`
abbrev pub with_ctx : String → Option Error → Option Error
with_ctx name none = none
with_ctx name (some e) = some (ctx name e)

-- What a call returns for a response.
abbrev pub outcome :
    {A F D : Type 0} → String → A → (Packet F D → A) → Received (Packet F D) → A × Option Error
outcome name default value (failed e) = (default, some (ctx name e))
outcome name default value (got p) = (value p, with_ctx name (error_of p.err_text))

module _ {F D : Type 0} ⦃fl : Float F⦄ (no_data : D) (message : Error → String) where
  -- `&packet{}`
  abbrev pub new_packet : Packet F D
  new_packet = record {
    type = packet_init;
    init_seed = 0;
    init_size = 0;
    init_model = no_data;
    stop = none;
    scale = fl.of_ℕ 0;
    seed = 0;
    rollout = none;
    scales = [];
    seeds = [];
    checksum = 0;
    err_text = none;
  }

  -- `newPacketErr`
  abbrev pub new_packet_err : Option Error → Packet F D
  new_packet_err none = new_packet
  new_packet_err (some e) = record new_packet { err_text = some (message e) }

  -- The `switch` of `ProxyProvide`: the response to a request, or `none` for an unknown type.
  abbrev pub respond :
      {W : Type 0} → SlaveApi F D W → Packet F D → PacketType → W → Option (Packet F D × W)
  respond slave p packet_init w =
      let (problem, w') = slave.init w p.init_model p.init_seed p.init_size in
      some (new_packet_err problem, w')
  respond slave p packet_run w =
      let (r, w') = slave.run w p.stop p.scale p.seed in
      some (record (new_packet_err r.1) { rollout = r.0 }, w')
  respond slave p packet_update w =
      let (r, w') = slave.update w p.scales p.seeds in
      some (record (new_packet_err r.1) { checksum = r.0 }, w')
  respond slave p (unknown n) w = none

  module _ {W C : Type 0} (slave : SlaveApi F D W) (conn : Connection F D C) where
    -- The loop of `ProxyProvide` and the error that ends it; `none` means that the fuel ran out.
    unfoldable pub provide_loop : ℕ → C → W → Option (Error × C × W)
    provide_loop zero c w = none
    provide_loop (suc fuel) c w =
        let (received, c1) = conn.receive c in
        elim (packet_of received) [
          | failed e ↦ some (e, c1, w)
          | got p ↦ elim (respond slave p p.type w) [
            | none ↦ some (text "unknown packet type", c1, w)
            | some (response, w') ↦
                let (problem, c2) = conn.send c1 response in
                let rest = provide_loop fuel c2 w' in
                elim problem [ some e ↦ some (e, c2, w') | none ↦ rest ]
          ]
        ]

    -- `ProxyProvide` once its connection is open
    unfoldable pub proxy_provide : ℕ → C → W → Option (Error × C × W)
    unfolding provide_loop
    proxy_provide fuel c w = elim (provide_loop fuel c w) [
      | none ↦ none
      | some (e, c', w') ↦ some (ctx "provide proxy" e, c', w')
    ]

  module _ {C : Type 0} (conn : Connection F D C) where
    -- A request and its response, as all calls of a `slaveProxy` make them.
    abbrev pub exchange : Packet F D → C → Received (Packet F D) × C
    exchange p c =
        let (problem, c1) = conn.send c p in
        let (received, c2) = conn.receive c1 in
        elim problem [ some e ↦ (failed e, c1) | none ↦ (packet_of received, c2) ]

    -- `Init`, `Run` and `Update` of a `slaveProxy`
    unfoldable pub proxy_init : C → D → ℕ → ℕ → Option Error × C
    proxy_init c model seed size =
        let (response, c') =
          exchange
            (record new_packet {
              type = packet_init;
              init_model = model;
              init_seed = seed;
              init_size = size;
            })
            c in
        ((outcome {A = Unit} "slave proxy init" tt (λ p. tt) response).1, c')

    unfoldable pub proxy_run :
        C → Option StopConds → F → ℕ → (Option (Rollout F) × Option Error) × C
    proxy_run c stop scale seed =
        let (response, c') =
          exchange
            (record new_packet { type = packet_run; stop = stop; scale = scale; seed = seed }) c in
        (outcome "slave proxy run" none (λ p. p.rollout) response, c')

    unfoldable pub proxy_update : C → List F → List ℕ → (ℕ × Option Error) × C
    proxy_update c scales seeds =
        let (response, c') =
          exchange (record new_packet { type = packet_update; scales = scales; seeds = seeds }) c in
        (outcome "slave proxy update" 0 (λ p. p.checksum) response, c')

-- What `ProxyConsume` has opened, in the order in which `Close` closes it.
pub data Closer : Type 0 where
  root_conn listener keepalive : Closer

-- `ProxyConsume`, from what `KeepaliveListener` returns: the proxy with its closers, or the error; and what
-- has been closed.
unfoldable pub proxy_consume : {C : Type 0} → Received C → Received (C × List Closer) × List Closer
proxy_consume (failed e) = (failed (ctx "consume proxy" e), root_conn ∷ listener ∷ [])
proxy_consume (got conn) = (got (conn, root_conn ∷ listener ∷ keepalive ∷ []), [])

-- A connection that `ProxyListen` accepts, and what `AddSlave` returns for its slave: the messages that are
-- logged, and what is closed.
unfoldable pub listen_to :
    {C : Type 0} → (Error → String) → Received C → (C → Option Error) → List String × List Closer
unfolding proxy_consume
listen_to message conn add_slave =
    let (consumed, closed) = proxy_consume conn in
    elim consumed [
      | failed e ↦ ("new connection" ∷ message e ∷ [], closed)
      | got (slave, closers) ↦ elim (add_slave slave) [
        | some e ↦ ("new connection" ∷ message e ∷ [], closed ++ closers)
        | none ↦ ("new connection" ∷ "slave added" ∷ [], closed)
      ]
    ]
