-- ===== src/Transport/Contract/Connecting.antt =====
-- Which nodes accept a handshake: packages/actor-core-runtime/src/runtime-transport-contract.ts.
use mathlib.Core.Path.{subst}
use actor_web.Common.{
  true, false, ◌||◌, [], ◌∷◌, Option, none, some, String, Dict, arith, ◌≡◌, refl, sym, ◌∙◌,
  if◌then◌else◌, same, same_refl, Option-cases, inl, inr,
}
use actor_web.Transport.Identity.{RuntimeNodeIdentity, is_same_runtime_node_identity}
use actor_web.Transport.Values.{
  Value, undefined, text, object, Fields, bare, get, get_field, is_record, is_blank, is_white_space,
  is_the_text, is_text, is_undefined, is_non_empty_string, has_string_record, every_text,
}
use actor_web.Transport.Contract.{
  RejectCode, missing_identity, self_connection, incompatible_protocol, malformed_frame,
  unauthorized, payload_too_large, ValidationResult, ok, failed, saying, ◌then_check◌, require,
  require_protocol, is_local, is_other, validate_runtime_auth_payload,
  validate_runtime_transport_handshake,
}
use actor_web.Transport.Contract.Shapes.{optional}
use actor_web.Transport.Contract.Reading.{is_valid_identity}
use actor_web.Transport.Contract.Delivery.{identity_ok, value_is_same-of_identity}
use actor_web.Transport.Contract.Handshake.{
  AuthPayload, hello, accept, reject, code_text, of_dict, of_auth, of_handshake, is_valid_scheme,
}

every_text-of_dict : (d : Dict String) → every_text (of_dict d) ≡ true
unfolding every_text of_dict is_text
every_text-of_dict [] = refl
every_text-of_dict (e ∷ d) = every_text-of_dict d

abbrev auth_field : Option AuthPayload → Value
auth_field a = get_field (optional "auth" of_auth a bare) "auth"

metadata_ok :
    (m : Option (Dict String))
    → let v = get_field (optional "metadata" (λ d. object (of_dict d)) m bare) "metadata" in
      (is_undefined v || has_string_record v) ≡ true
unfolding get_field optional is_undefined has_string_record
metadata_ok none = refl
metadata_ok (some d) = every_text-of_dict d

get_field-optional {ℓ} :
    {A : Type ℓ} (k key : String) (encode : A → Value) (o : Option A) (fs : Fields)
    → same k key ≡ false
    → get_field (optional k encode o fs) key ≡ get_field fs key
unfolding get_field optional
get_field-optional k key encode none fs h = refl
get_field-optional k key encode (some a) fs h = rw h refl

-- What is read of a text that may be left out.
text_ok :
    (k : String) (o : Option String) (fs : Fields)
    → get_field fs k ≡ undefined
    → let v = get_field (optional k text o fs) k in (is_undefined v || is_text v) ≡ true
unfolding get_field optional is_undefined is_text
text_ok k none fs h = rw h refl
text_ok k (some s) fs h = rw (same_refl k) refl

scheme_ok :
    (a : AuthPayload) (fs : Fields)
    → is_valid_scheme (some a) ≡ true
    → get_field fs "scheme" ≡ undefined
    → let v = get_field (optional "scheme" text a.scheme fs) "scheme" in
      (is_undefined v || is_non_empty_string v) ≡ true
unfolding get_field optional is_undefined is_non_empty_string is_valid_scheme
scheme_ok a fs h e = elim (Option-cases a.scheme) [
  | inl n ↦ rw (n, e) refl
  | inr (s, n) ↦
      subst
        (λ o.
          is_valid_scheme (some (record a { scheme = o })) ≡ true
          → let v = get_field (optional "scheme" text o fs) "scheme" in
            (is_undefined v || is_non_empty_string v) ≡ true)
        (sym n) (λ g. g) h
]

auth_ok :
    (a : AuthPayload)
    → is_valid_scheme (some a) ≡ true
    → validate_runtime_auth_payload (of_auth a) ≡ ok
unfolding validate_runtime_auth_payload of_auth get is_record require ◌then_check◌
auth_ok a h =
    let metadata = optional "metadata" (λ d. object (of_dict d)) a.metadata bare in
    let token = optional "token" text a.token metadata in
    let no_scheme : get_field token "scheme" ≡ undefined =
      get_field-optional "token" "scheme" text a.token metadata refl
      ∙ get_field-optional "metadata" "scheme" (λ d. object (of_dict d)) a.metadata bare refl in
    ground (
      arith,
      scheme_ok a token h no_scheme,
      text_ok "token" a.token metadata
          (get_field-optional "metadata" "token" (λ d. object (of_dict d)) a.metadata bare refl),
      metadata_ok a.metadata,
      get_field-optional "scheme" "token" text a.scheme token refl,
      get_field-optional "scheme" "metadata" text a.scheme token refl,
      get_field-optional "token" "metadata" text a.token metadata refl,
    )

auth_field_ok :
    (a : Option AuthPayload)
    → is_valid_scheme a ≡ true
    → (if is_undefined (auth_field a) then ok else validate_runtime_auth_payload (auth_field a))
      ≡ ok
unfolding get_field optional is_undefined of_auth
auth_field_ok none h = refl
auth_field_ok (some a) h = auth_ok a h

abbrev to_itself : ValidationResult
to_itself = failed self_connection (saying "Runtime handshake cannot connect a node to itself.")

abbrev to_another : ValidationResult
to_another =
    failed malformed_frame
      (saying "Runtime handshake accept destination does not match the local node.")

code_text_lem : (c : RejectCode) → is_blank (code_text c) ≡ false
unfolding is_blank code_text is_white_space
code_text_lem missing_identity = refl
code_text_lem self_connection = refl
code_text_lem incompatible_protocol = refl
code_text_lem malformed_frame = refl
code_text_lem unauthorized = refl
code_text_lem payload_too_large = refl

reject_ok :
    (s d : Option RuntimeNodeIdentity) (code : RejectCode) (message now : String)
    (local : Option RuntimeNodeIdentity)
    → is_blank now ≡ false
    → is_blank message ≡ false
    → validate_runtime_transport_handshake (of_handshake (reject s d code message now)) local ≡ ok
unfolding validate_runtime_transport_handshake of_handshake get get_field is_record require
    require_protocol ◌then_check◌ is_the_text is_non_empty_string optional
reject_ok none none code message now local h k = rw (h, k, code_text_lem code) refl
reject_ok none (some d) code message now local h k = rw (h, k, code_text_lem code) refl
reject_ok (some s) none code message now local h k = rw (h, k, code_text_lem code) refl
reject_ok (some s) (some d) code message now local h k = rw (h, k, code_text_lem code) refl

-- A handshake with valid identities, a time that is not blank and a scheme that is not, if one is
-- given: a hello is accepted by every node but those with its source's node id and incarnation,
-- which refuse it as a connection to themselves; an accept is refused likewise, and then refused
-- as malformed by every node that it is not destined to; a reject with a message that is not
-- blank is accepted by all, whatever identities it names.
pub validate_runtime_transport_handshake-of_handshake :
    (source destination local : RuntimeNodeIdentity) (auth : Option AuthPayload) (now : String)
    (s d : Option RuntimeNodeIdentity) (code : RejectCode) (message : String)
    → is_valid_identity source ≡ true
    → is_valid_identity destination ≡ true
    → is_blank now ≡ false
    → is_valid_scheme auth ≡ true
    → is_blank message ≡ false
    → (validate_runtime_transport_handshake (of_handshake (hello source now auth)) (some local)
        ≡ (if is_same_runtime_node_identity source local then to_itself else ok))
      × (validate_runtime_transport_handshake
            (of_handshake (accept source destination now auth))
            (some local)
          ≡ (if is_same_runtime_node_identity source local
              then to_itself
              else if is_same_runtime_node_identity destination local
              then ok
              else to_another))
      × (validate_runtime_transport_handshake
            (of_handshake (reject s d code message now))
            (some local)
          ≡ ok)
unfolding validate_runtime_transport_handshake of_handshake get get_field is_record require
    require_protocol ◌then_check◌ is_the_text is_other is_local is_non_empty_string code_text
validate_runtime_transport_handshake-of_handshake source destination local auth now s d code message
      from to timed schemed worded =
    (
      rw
          (
            timed,
            identity_ok source from,
            value_is_same-of_identity source local,
            auth_field_ok auth schemed,
          )
          (ground arith),
      rw
          (
            timed,
            identity_ok source from,
            identity_ok destination to,
            value_is_same-of_identity source local,
            value_is_same-of_identity destination local,
            auth_field_ok auth schemed,
          )
          (ground arith),
      reject_ok s d code message now (some local) timed worded,
    )
