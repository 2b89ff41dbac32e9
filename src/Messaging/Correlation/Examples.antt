-- ===== src/Messaging/Correlation/Examples.antt =====
-- Requests that are answered, that fail, and that time out.
use actor_web.Common.{List, [], ◌∷◌, ◌≡◌, refl, arith, find, put, erase}
use actor_web.Messaging.Correlation.{
  response, timeout, new_manager, timeout_of, clear_timeout, register_request, handle_response,
  handle_timeout, fire_timeout, Call, registering, responding, timing_out, firing, step, run,
  fire_each,
}
use actor_web.Messaging.Correlation.Settled.{endings, run-settles}

abbrev calls : List Call
calls =
    registering "a"
    ∷ registering "b"
    ∷ registering "a"
    ∷ responding response "b"
    ∷ responding response "b"
    ∷ []

run-settles_example :
    let c = run calls new_manager in
    let c' = fire_each c.timeouts c in (c'.pending_requests ≡ []) × (endings c'.settled 1 ≡ 1)
unfolding run step register_request handle_response find put erase
run-settles_example = run-settles calls 1 (ground arith)

-- A timeout that was handled directly goes on waiting, and rejects a later request of its id.
stale_timeout :
    (run (registering "a" ∷ timing_out "a" ∷ registering "a" ∷ firing 0 ∷ []) new_manager).settled
    ≡ (1, timeout) ∷ (0, timeout) ∷ []
unfolding run step register_request handle_timeout fire_timeout timeout_of clear_timeout find put
    erase
stale_timeout = refl
