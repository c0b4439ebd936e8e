-- ===== src/Rpc/Codec/Unique.antt =====
-- internal/jetkvm/rpc_codec.go: consumeUniqueJSONValue against a description that
-- looks at the keys of an object together.
use jetkvm_mcp.Base.{Bool, true, not, ◌&&◌, List, [], ◌∷◌, String, str_eq, ◌≡◌, refl, eq_iff, arith}
use jetkvm_mcp.Rpc.Codec.{
  Elements, Json, Members, Raw, array, bool_value, consume_elements, consume_members,
  consume_unique, element, fraction, has_key, integer, member, no_elements, no_members, null_value,
  object, text,
}

abbrev pub keys_of : Members → List String
keys_of no_members = []
keys_of (member k _ ms) = k ∷ keys_of ms

abbrev pub raw_of : Members → Raw
raw_of no_members = []
raw_of (member k v ms) = (k, v) ∷ raw_of ms

-- Every key differs from those that come later.
unfoldable pub distinct : List String → Bool
distinct [] = true
distinct (k ∷ ks) = not (has_key k ks) && distinct ks

unfoldable mutual
  pub is_unique : Json → Bool
  is_unique (array es) = are_unique es
  is_unique (object ms) = distinct (keys_of ms) && values_unique ms
  is_unique _ = true

  pub are_unique : Elements → Bool
  are_unique no_elements = true
  are_unique (element j es) = is_unique j && are_unique es

  pub values_unique : Members → Bool
  values_unique no_members = true
  values_unique (member k j ms) = is_unique j && values_unique ms

-- None of the second is among the first.
unfoldable pub fresh : List String → List String → Bool
fresh keys [] = true
fresh keys (k ∷ ks) = not (has_key k keys) && fresh keys ks

pub str_eq_comm : (a b : String) → str_eq a b ≡ str_eq b a
str_eq_comm a b = ground (arith, eq_iff a b, eq_iff b a)

fresh-cons :
    (j : String) (keys ks : List String)
    → fresh (j ∷ keys) ks ≡ (not (has_key j ks) && fresh keys ks)
unfolding fresh
fresh-cons j keys [] = refl
fresh-cons j keys (k ∷ ks) = ground (arith, fresh-cons j keys ks, str_eq_comm j k)

pub fresh-nil : (ks : List String) → fresh [] ks ≡ true
unfolding fresh
fresh-nil [] = refl
fresh-nil (k ∷ ks) = ground (arith, fresh-nil ks)

one_member :
    (seen later f d v cu u c fc : Bool)
    → cu ≡ u
    → c ≡ (fc && d && v)
    → fc ≡ (not later && f)
    → (not seen && cu && c) ≡ ((not seen && f) && (not later && d) && (u && v))
one_member seen later f d v cu u c fc h i j = ground arith

mutual
  unfolding consume_unique is_unique fresh distinct

  pub consume_unique-eq : (j : Json) → consume_unique j ≡ is_unique j
  consume_unique-eq null_value = refl
  consume_unique-eq (bool_value b) = refl
  consume_unique-eq (integer i) = refl
  consume_unique-eq (fraction n) = refl
  consume_unique-eq (text s) = refl
  consume_unique-eq (array es) = consume_elements-eq es
  consume_unique-eq (object ms) = ground (arith, consume_members-eq [] ms, fresh-nil (keys_of ms))

  consume_elements-eq : (es : Elements) → consume_elements es ≡ are_unique es
  consume_elements-eq no_elements = refl
  consume_elements-eq (element j es) = ground (arith, consume_unique-eq j, consume_elements-eq es)

  consume_members-eq :
      (keys : List String) (ms : Members)
      → consume_members keys ms
        ≡ (fresh keys (keys_of ms) && distinct (keys_of ms) && values_unique ms)
  consume_members-eq keys no_members = refl
  consume_members-eq keys (member k j ms) =
      one_member (has_key k keys) (has_key k (keys_of ms)) (fresh keys (keys_of ms))
        (distinct (keys_of ms)) (values_unique ms) (consume_unique j) (is_unique j)
        (consume_members (k ∷ keys) ms) (fresh (k ∷ keys) (keys_of ms)) (consume_unique-eq j)
        (consume_members-eq (k ∷ keys) ms) (fresh-cons k keys (keys_of ms))
