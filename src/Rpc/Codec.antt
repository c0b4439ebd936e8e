-- ===== src/Rpc/Codec.antt =====
-- internal/jetkvm/rpc_codec.go: decoding what a device sends. A frame is its size and the one JSON value
-- that its text is, if it is one: where encoding/json stops in the middle of a text, every
-- caller refuses the frame, whatever has been read before.
pub mod Unique
pub mod Reading
pub mod Replies
use jetkvm_mcp.Base.{
  ℕ, zero, ◌<◌, ◌^◌, Bool, true, false, not, ◌&&◌, ◌||◌, Option, none, some, List, [], ◌∷◌, ◌++◌,
  String, str_eq, ◌==◌, ltb, is_some, if◌then◌else◌,
}
use jetkvm_mcp.Base.Integers.{ℤ, negsuc, pos}
use jetkvm_mcp.Errors.{Sentinel, invalid_response, rpc_method_unavailable, unsolicited_rpc}

-- `fraction` stands for the numbers that are no integer literals.
mutual
  pub data Json : Type 0 where
    null_value : Json
    bool_value : Bool → Json
    integer : ℤ → Json
    fraction : ℕ → Json
    text : String → Json
    array : Elements → Json
    object : Members → Json

  pub data Elements : Type 0 where
    no_elements : Elements
    element : Json → Elements → Elements

  pub data Members : Type 0 where
    no_members : Members
    member : String → Json → Members → Members

abbrev pub has_key : String → List String → Bool
has_key k [] = false
has_key k (j ∷ ks) = str_eq j k || has_key k ks

-- `consumeUniqueJSONValue`: no object has a key twice.
unfoldable mutual
  pub consume_unique : Json → Bool
  consume_unique (array es) = consume_elements es
  consume_unique (object ms) = consume_members [] ms
  consume_unique _ = true

  pub consume_elements : Elements → Bool
  consume_elements no_elements = true
  consume_elements (element j es) = consume_unique j && consume_elements es

  pub consume_members : List String → Members → Bool
  consume_members keys no_members = true
  consume_members keys (member k j ms) =
      not (has_key k keys) && consume_unique j && consume_members (k ∷ keys) ms

-- `map[string]json.RawMessage`
abbrev pub Raw : Type 0
Raw = List (String × Json)

unfoldable pub find_member : String → Raw → Option Json
find_member k [] = none
find_member k ((j, v) ∷ ms) = if str_eq j k then some v else find_member k ms

pub record ObjectMembers : Type 0 where
  pub members : Raw
  pub malformed : Bool
  pub duplicate_id : Bool

unfoldable pub note_member : List String → String → Json → ObjectMembers → ObjectMembers
note_member allowed k v o =
    let exists = is_some (find_member k o.members) in
    record {
      members = if exists then o.members else o.members ++ ((k, v) ∷ []);
      malformed = o.malformed || exists || not (has_key k allowed) || not (consume_unique v);
      duplicate_id = o.duplicate_id || (exists && str_eq k "id");
    }

-- The loop of `decodeObjectMembers`.
unfoldable pub read_members : List String → Members → ObjectMembers → ObjectMembers
read_members allowed no_members o = o
read_members allowed (member k v ms) o = read_members allowed ms (note_member allowed k v o)

abbrev pub unreadable : ObjectMembers
unreadable = record { members = []; malformed = true; duplicate_id = false }

abbrev pub no_object_members : ObjectMembers
no_object_members = record { members = []; malformed = false; duplicate_id = false }

abbrev pub decode_object_members : Option Json → List String → ObjectMembers
decode_object_members (some (object ms)) allowed = read_members allowed ms no_object_members
decode_object_members _ allowed = unreadable

-- `ErrRPCMethodUnavailable` and the like, or `*rpcProtocolError`.
pub data RpcFailure : Type 0 where
  known : Sentinel → RpcFailure
  protocol_error : ℤ → RpcFailure

pub record Response : Type 0 where
  pub id : ℕ
  pub result : Option Json
  pub other_session_connected : Bool

pub record Decoded : Type 0 where
  pub response : Response
  pub err : Option RpcFailure

abbrev pub max_rpc_frame : ℕ
max_rpc_frame = 16384

abbrev pub no_response : Response
no_response = record { id = 0; result = none; other_session_connected = false }

abbrev pub rpc_rejected : Sentinel → Decoded
rpc_rejected s = record { response = no_response; err = some (known s) }

-- json.Unmarshal into a uint64: `null` changes nothing.
unfoldable pub unmarshal_uint64 : Json → Option ℕ
unmarshal_uint64 null_value = some 0
unmarshal_uint64 (integer (pos n)) = if ltb n (2 ^ 64) then some n else none
unmarshal_uint64 _ = none

-- json.Unmarshal into a *int, where the pointer must be set after it.
unfoldable pub unmarshal_code : Option Json → Option ℤ
unmarshal_code (some (integer (pos n))) = if ltb n (2 ^ 63) then some (pos n) else none
unmarshal_code (some (integer (negsuc n))) = if ltb n (2 ^ 63) then some (negsuc n) else none
unmarshal_code _ = none

abbrev pub is_text : Option Json → Bool
is_text (some (text _)) = true
is_text _ = false

abbrev pub is_the_text : String → Option Json → Bool
is_the_text s (some (text t)) = str_eq t s
is_the_text s _ = false

abbrev error_members : List String
error_members = "code" ∷ "message" ∷ []

abbrev code_failure : Bool → Option ℤ → RpcFailure
code_failure true (some (pos n)) = protocol_error (pos n)
code_failure true (some (negsuc n)) =
    if n == 32600 then known rpc_method_unavailable else protocol_error (negsuc n)
code_failure _ _ = known invalid_response

unfoldable pub decode_rpc_error : Json → RpcFailure
decode_rpc_error raw =
    let o = decode_object_members (some raw) error_members in
    if o.malformed
    then known invalid_response
    else code_failure (is_text (find_member "message" o.members))
        (unmarshal_code (find_member "code" o.members))

abbrev event_of : Raw → Decoded
event_of ms =
    let event : Decoded = record {
      response = record no_response { other_session_connected = true };
      err = none;
    } in
    if not (is_some (find_member "method" ms))
    then rpc_rejected invalid_response
    else if is_the_text "otherSessionConnected" (find_member "method" ms)
        && not (is_some (find_member "params" ms))
        && not (is_some (find_member "result" ms))
        && not (is_some (find_member "error" ms))
    then event
    else rpc_rejected unsolicited_rpc

abbrev pub body_of : ℕ → Option Json → Option Json → Decoded
body_of id (some _) (some _) = rpc_rejected invalid_response
body_of id none (some e) = record {
  response = record no_response { id = id };
  err = some (decode_rpc_error e);
}
body_of id result none = record {
  response = record no_response { id = id; result = result };
  err = none;
}

abbrev reply_of : Option ℕ → Raw → Decoded
reply_of none ms = rpc_rejected invalid_response
reply_of (some id) ms =
    if is_some (find_member "method" ms) || is_some (find_member "params" ms)
    then rpc_rejected invalid_response
    else body_of id (find_member "result" ms) (find_member "error" ms)

abbrev by_id : Option Json → Raw → Decoded
by_id none ms = event_of ms
by_id (some raw) ms = reply_of (unmarshal_uint64 raw) ms

unfoldable pub decode_members : Raw → Decoded
decode_members ms =
    if is_the_text "2.0" (find_member "jsonrpc" ms)
    then by_id (find_member "id" ms) ms
    else rpc_rejected invalid_response

abbrev pub rpc_members : List String
rpc_members = "jsonrpc" ∷ "method" ∷ "params" ∷ "result" ∷ "error" ∷ "id" ∷ []

pub record RpcFrame : Type 0 where
  pub size : ℕ
  pub document : Option Json

unfoldable pub decode_rpc_response : RpcFrame → Decoded
decode_rpc_response f =
    let o = decode_object_members f.document rpc_members in
    if f.size == 0 || ltb max_rpc_frame f.size || o.malformed || o.duplicate_id
    then rpc_rejected invalid_response
    else decode_members o.members
