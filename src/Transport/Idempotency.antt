-- ===== src/Transport/Idempotency.antt =====
-- Duplicate frames: packages/actor-core-runtime/src/runtime-transport-idempotency.ts. A negative
-- limit of the cache acts as 0.
pub mod Window
pub mod Durable
pub mod Reconnect
mod Examples
use actor_web.Common.{
  ℕ, zero, suc, ◌+◌, Bool, true, false, not, ◌&&◌, List, [], ◌∷◌, ◌++◌, Option, none, some, ltb,
  leb, ◌==◌, if◌then◌else◌, length, String, same, includes, Dict, find, put,
}
use actor_web.Transport.Identity.{
  RuntimeNodeIdentity, create_runtime_transport_idempotency_scope, idempotency_key,
}

pub record FrontCache : Type 0 where
  pub limit : ℕ
  pub message_ids : List String
  pub message_id_set : List String

unfoldable pub new_cache : ℕ → FrontCache
new_cache limit = record { limit = limit; message_ids = []; message_id_set = [] }

-- `Set.add` and `Set.delete`
unfoldable pub set_add : String → List String → List String
set_add x s = if includes x s then s else s ++ x ∷ []

unfoldable pub set_delete : String → List String → List String
set_delete x [] = []
set_delete x (y ∷ s) = if same y x then set_delete x s else y ∷ set_delete x s

unfoldable pub has : FrontCache → String → Bool
has c message_id = ltb 0 c.limit && includes message_id c.message_id_set

-- The loop of `remember`: the ids and the set after it, and the ids that it evicts. An empty id
-- is dropped from the list alone.
unfoldable pub evict : ℕ → List String → List String → List String × List String × List String
evict limit [] s = ([], s, [])
evict limit (x ∷ ids) s =
    let rest = evict limit ids (if same x "" then s else set_delete x s) in
    if ltb limit (length (x ∷ ids))
    then (rest.0, rest.1, if same x "" then rest.2 else x ∷ rest.2)
    else (x ∷ ids, s, [])

unfoldable pub remember : FrontCache → String → FrontCache × List String
unfolding evict set_add
remember c message_id =
    if c.limit == 0
    then (c, [])
    else let r =
        evict c.limit (c.message_ids ++ message_id ∷ []) (set_add message_id c.message_id_set) in
      (record c { message_ids = r.0; message_id_set = r.1 }, r.2)

pub record ClaimInput : Type 0 where
  pub scope : String
  pub key : String
  pub message_id : String
  pub message_type : String
  pub sequence : ℕ
  pub local_node : RuntimeNodeIdentity
  pub peer_node : RuntimeNodeIdentity

-- What a claim reads of a frame.
pub record FrameFacts : Type 0 where
  pub message_id : String
  pub sequence : ℕ
  pub message_type : String

unfoldable pub create_claim_input :
    RuntimeNodeIdentity → RuntimeNodeIdentity → FrameFacts → ClaimInput
create_claim_input local_node peer_node frame =
    let scope = create_runtime_transport_idempotency_scope local_node peer_node in
    record {
      scope = scope;
      key = idempotency_key scope frame.message_id;
      message_id = frame.message_id;
      message_type = frame.message_type;
      sequence = frame.sequence;
      local_node = local_node;
      peer_node = peer_node;
    }

pub data ClaimResult : Type 0 where
  claimed : ClaimResult
  duplicate : ClaimResult

pub data Source : Type 0 where
  memory provider : Source

pub data ClaimOutcome : Type 0 where
  accepted : Source → List String → Option ClaimInput → ClaimOutcome
  duplicate : Source → List String → Option ClaimInput → ClaimOutcome
  error : ClaimInput → ClaimOutcome

-- A provider with its state: `none` is a claim that throws.
pub record Provider : Type 1 where
  pub State : Type 0
  pub claim : ClaimInput → State → State × Option ClaimResult

unfoldable pub provider_outcome :
    FrontCache → String → ClaimInput → Option ClaimResult → FrontCache × ClaimOutcome
provider_outcome cache message_id input none = (cache, error input)
provider_outcome cache message_id input (some ClaimResult.duplicate) =
    let (cache', evicted) = remember cache message_id in
    (cache', ClaimOutcome.duplicate provider evicted (some input))
provider_outcome cache message_id input (some claimed) =
    let (cache', evicted) = remember cache message_id in
    (cache', accepted provider evicted (some input))

unfoldable pub claim_in_memory : FrontCache → String → FrontCache × ClaimOutcome
claim_in_memory cache message_id =
    if has cache message_id
    then (cache, ClaimOutcome.duplicate memory [] none)
    else let (cache', evicted) = remember cache message_id in (cache', accepted memory evicted none)

module _ (p : Provider) where
  unfoldable pub claim_with_provider :
      RuntimeNodeIdentity
      → RuntimeNodeIdentity
      → FrameFacts
      → FrontCache × p.State
      → (FrontCache × p.State) × ClaimOutcome
  unfolding provider_outcome create_claim_input
  claim_with_provider local_node peer_node frame (cache, state) =
      if has cache frame.message_id
      then ((cache, state), ClaimOutcome.duplicate memory [] none)
      else let input = create_claim_input local_node peer_node frame in
        let (state', result) = p.claim input state in
        let (cache', outcome) = provider_outcome cache frame.message_id input result in
        ((cache', state'), outcome)

-- The provider kept in memory: for each scope the set of keys.
unfoldable pub keys_of : Option (List String) → List String
keys_of none = []
keys_of (some keys) = keys

unfoldable pub memory_claim :
    ClaimInput → Dict (List String) → Dict (List String) × Option ClaimResult
unfolding keys_of set_add
memory_claim input scopes =
    let keys = keys_of (find scopes input.scope) in
    (
      put scopes input.scope (set_add input.key keys),
      some (if includes input.key keys then ClaimResult.duplicate else claimed),
    )

abbrev pub in_memory_provider : Provider
in_memory_provider = record { State = Dict (List String); claim = memory_claim }
