-- ===== src/Rpc/Codec/Replies.antt =====
-- internal/jetkvm/rpc_codec.go: which frames decodeRPCResponse takes for the result of a request.
use jetkvm_mcp.Base.{ℕ, ◌≤◌, Bool, true, ◌||◌, none, some, ◌==◌, ltb, ◌≡◌}
use jetkvm_mcp.Rpc.Codec.{
  Decoded, RpcFrame, Json, Members, ObjectMembers, Raw, find_member, max_rpc_frame,
  no_object_members, no_response, object, read_members, rpc_members, text, unmarshal_uint64,
}
use jetkvm_mcp.Rpc.Codec.Unique.{is_unique, keys_of, raw_of}
use jetkvm_mcp.Rpc.Codec.Reading.{all_allowed}

-- The result `v` of the request `id`.
abbrev pub reply : ℕ → Json → Decoded
reply id v = record { response = record no_response { id = id; result = some v }; err = none }

-- The members of a reply, where `raw` is its id as it is written.
pub record AreOfReply (m : Raw) (raw : Json) (id : ℕ) (v : Json) : Type 0 where
  pub version : find_member "jsonrpc" m ≡ some (text "2.0")
  pub request : find_member "id" m ≡ some raw
  pub number : unmarshal_uint64 raw ≡ some id
  pub method : find_member "method" m ≡ none
  pub params : find_member "params" m ≡ none
  pub error : find_member "error" m ≡ none
  pub result : find_member "result" m ≡ some v

pub record IsReply (f : RpcFrame) (ms : Members) (raw : Json) (id : ℕ) (v : Json) : Type 0 where
  pub document : f.document ≡ some (object ms)
  pub size : (1 ≤ f.size) × (f.size ≤ 16384)
  pub unique : is_unique (object ms) ≡ true
  pub allowed : all_allowed rpc_members (keys_of ms) ≡ true
  pub members : AreOfReply (raw_of ms) raw id v

-- The members of an object, as they are read.
abbrev read_object : Members → ObjectMembers
read_object ms = read_members rpc_members ms no_object_members

abbrev sizes : RpcFrame → Bool
sizes f = f.size == 0 || ltb max_rpc_frame f.size
