-- ===== src/Proxy/Tests.antt =====
-- A slave whose state counts its calls, over a proxy.
use trpo.Prelude.{
  ℕ, ◌+◌, ◌≡◌, refl, List, [], ◌∷◌, map, Option, none, some, ◌==◌, if◌then◌else◌, String, false,
}
use trpo.Prelude.Int.{ℤ, pos, int_float}
use trpo.Prelude.Failure.{Error, text, ctx}
use trpo.Master.{Rollout}
use trpo.Proxy.{
  Packet, packet_update, unknown, SlaveApi, new_packet, root_conn, listener, keepalive, Received,
  failed, got, proxy_init, proxy_run, proxy_update, proxy_consume, listen_to, proxy_provide,
}
use trpo.Proxy.Linked.{
  Request, init, run, update, inited, ran, summed, calls, proxy, linked, relay, calls-proxy,
}
use trpo.Proxy.Providing.{scripted, responses, stop_at, proxy_provide-responses}

abbrev rollout_of : ℕ → Rollout ℤ
rollout_of seed = record {
  scale = pos 1;
  seed = seed;
  reward = pos 9;
  steps = 3;
  early_stop = false;
}

-- Its second call fails.
abbrev problem_at : ℕ → Option Error
problem_at w = if w == 1 then some (text "lost") else none

abbrev counting : SlaveApi ℤ ℕ ℕ
counting = record {
  init = λ w model seed size. (problem_at w, w + 1);
  run = λ w stop scale seed. ((some (rollout_of seed), problem_at w), w + 1);
  update = λ w scales seeds. ((w, problem_at w), w + 1);
}

abbrev message : Error → String
message (text t) = t
message e = "other"

abbrev requests : List (Request ℤ ℕ)
requests = init 5 7 10 ∷ run none (pos 1) 3 ∷ update (pos 1 ∷ []) (3 ∷ []) ∷ []

calls_test : calls (proxy 0 message (linked 0 message counting (text "EOF"))) requests (0, none) ≡ (
  inited none
      ∷ ran (some (rollout_of 3)) (some (ctx "slave proxy run" (text "lost")))
      ∷ summed 2 none
      ∷ [],
  (3, none),
)
unfolding calls proxy_init proxy_run proxy_update
calls_test = refl

calls-proxy_example :
    calls (proxy 0 message (linked 0 message counting (text "EOF"))) requests (0, none) ≡ (
      let (answers, w) = calls counting requests 0 in
      (map (relay 0 message counting (text "EOF")) answers, (w, none)))
calls-proxy_example = calls-proxy 0 message counting (text "EOF") requests 0

abbrev packets : List (Packet ℤ ℕ)
packets =
    record (new_packet 0 message) { type = packet_update }
    ∷ record (new_packet 0 message) { type = unknown 7 }
    ∷ new_packet 0 message
    ∷ []

proxy_provide-responses_example :
    proxy_provide 0 message counting scripted 4
      (record { arriving = packets; last = failed (text "EOF"); sent = [] })
      0
    ≡ (let (rs, left, w') = responses 0 message counting packets 0 in
        let (e, unread) = stop_at 0 message counting (text "EOF") left in
        some (
          ctx "provide proxy" e,
          record { arriving = unread; last = failed (text "EOF"); sent = rs },
          w',
        ))
proxy_provide-responses_example = proxy_provide-responses 0 message counting packets (text "EOF") 0

abbrev connected : Received ℕ
connected = got 4

abbrev unreachable : Received ℕ
unreachable = failed (text "timeout")

-- A slave that cannot be added is closed.
listen_test :
    listen_to message connected (λ c. some (text "bad checksum"))
    ≡ ("new connection" ∷ "bad checksum" ∷ [], root_conn ∷ listener ∷ keepalive ∷ [])
unfolding listen_to proxy_consume
listen_test = refl

failed_test :
    listen_to message unreachable (λ c. none)
    ≡ ("new connection" ∷ "other" ∷ [], root_conn ∷ listener ∷ [])
unfolding listen_to proxy_consume
failed_test = refl
