-- ===== src/Transport/Idempotency/Examples.antt =====
-- Frames of one link at small caches.
use actor_web.Common.{last, List, [], ◌∷◌, none, String, includes, arith, ◌≡◌, refl, find, put}
use actor_web.Transport.Identity.{
  RuntimeNodeIdentity, create_runtime_transport_message_id,
  create_runtime_transport_idempotency_scope, idempotency_key,
}
use actor_web.Transport.Idempotency.{
  new_cache, set_add, set_delete, has, evict, remember, claim_in_memory, claim_with_provider,
  keys_of, memory_claim, create_claim_input, provider_outcome,
}
use actor_web.Transport.Idempotency.Window.{
  run_claims, accept_all, accepted_id, run_claims-accept_all,
}
use actor_web.Transport.Idempotency.Durable.{
  run_frames, first_of_each, claim_frame, run_frames-first_of_each,
}
use actor_web.Transport.Idempotency.Reconnect.{sent_frames, reconnect_drops_all}

program : Unit {0}
unfolding create_runtime_transport_message_id create_runtime_transport_idempotency_scope
    idempotency_key new_cache set_add set_delete has evict remember claim_in_memory
    claim_with_provider keys_of memory_claim create_claim_input provider_outcome last run_claims
    accept_all accepted_id run_frames first_of_each claim_frame sent_frames includes find put
program = tt

abbrev node : String → RuntimeNodeIdentity
node a = record {
  node_address = a;
  node_id = a;
  incarnation = "1";
  protocol_version = "actor-web-runtime/1";
  capabilities = none;
}

-- With a limit of 2 the first id is forgotten when the third one comes.
forgets : run_claims ("a" ∷ "b" ∷ "b" ∷ "c" ∷ "a" ∷ []) (new_cache 2) ≡ "a" ∷ "b" ∷ "c" ∷ "a" ∷ []
unfolding program
forgets = refl

run_claims-accept_all_example :
    run_claims ("a" ∷ "b" ∷ "b" ∷ "c" ∷ "a" ∷ []) (new_cache 2)
    ≡ accept_all 2 [] ("a" ∷ "b" ∷ "b" ∷ "c" ∷ "a" ∷ [])
run_claims-accept_all_example =
    run_claims-accept_all 2 ("a" ∷ "b" ∷ "b" ∷ "c" ∷ "a" ∷ []) (omega arith)
      (refl, (refl, (refl, (refl, (refl, tt)))))

abbrev pings : List String
pings = "ping" ∷ "ping" ∷ []

second_id : create_runtime_transport_message_id (node "n1") (node "n2") 12 ≡ "n1:1:n2:12"
unfolding program
second_id = refl

run_frames-first_of_each_example :
    (run_frames
      (node "n2")
      (node "n1")
      (sent_frames (node "n1") (node "n2") 0 pings)
      (new_cache 1, [])).0
    ≡ first_of_each (node "n2") (node "n1") [] (sent_frames (node "n1") (node "n2") 0 pings)
run_frames-first_of_each_example =
    run_frames-first_of_each (node "n2") (node "n1") 1 (sent_frames (node "n1") (node "n2") 0 pings)

reconnect_drops_all_example :
    let s =
      (run_frames
        (node "n2")
        (node "n1")
        (sent_frames (node "n1") (node "n2") 0 pings)
        (new_cache 9, [])).1 in
    (run_frames
      (node "n2")
      (node "n1")
      (sent_frames (node "n1") (node "n2") 0 ("pong" ∷ []))
      (new_cache 9, s.1)).0
    ≡ []
reconnect_drops_all_example =
    reconnect_drops_all (node "n2") (node "n1") 9 pings ("pong" ∷ []) (omega arith)
