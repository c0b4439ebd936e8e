-- ===== src/Rpc/Codec/Reading.antt =====
-- internal/jetkvm/rpc_codec.go: what decodeObjectMembers refuses, and what it finds.
use jetkvm_mcp.Base.{
  Bool, true, false, not, ◌&&◌, ◌||◌, List, [], ◌∷◌, ◌++◌, String, str_eq, ◌≡◌, refl, sym, ap, ◌∙◌,
  arith, is_some, if◌then◌else◌,
}
use mathlib.Core.List.{append_assoc, append-nil}
use jetkvm_mcp.Rpc.Codec.{
  Json, Members, ObjectMembers, Raw, find_member, has_key, member, no_members, note_member,
  read_members,
}
use jetkvm_mcp.Rpc.Codec.Unique.{
  consume_unique-eq, distinct, fresh, is_unique, keys_of, raw_of, str_eq_comm, values_unique,
}

abbrev pub raw_keys : Raw → List String
raw_keys [] = []
raw_keys ((k, _) ∷ ms) = k ∷ raw_keys ms

unfoldable pub all_allowed : List String → List String → Bool
all_allowed allowed [] = true
all_allowed allowed (k ∷ ks) = has_key k allowed && all_allowed allowed ks

find_member-has_key : (k : String) (ms : Raw) → is_some (find_member k ms) ≡ has_key k (raw_keys ms)
unfolding find_member
find_member-has_key k [] = refl
find_member-has_key k ((j, v) ∷ ms) = ground (arith, find_member-has_key k ms)

has_key-append_one :
    (j k : String) (v : Json) (ms : Raw)
    → has_key j (raw_keys (ms ++ ((k, v) ∷ []))) ≡ (has_key j (raw_keys ms) || str_eq k j)
has_key-append_one j k v [] = ground arith
has_key-append_one j k v ((i, w) ∷ ms) = ground (arith, has_key-append_one j k v ms)

fresh-append_one :
    (k : String) (v : Json) (ms : Raw) (ks : List String)
    → fresh (raw_keys (ms ++ ((k, v) ∷ []))) ks ≡ (not (has_key k ks) && fresh (raw_keys ms) ks)
unfolding fresh
fresh-append_one k v ms [] = refl
fresh-append_one k v ms (j ∷ ks) =
    ground (arith, fresh-append_one k v ms ks, has_key-append_one j k v ms, str_eq_comm j k)

fresh-note_member :
    (allowed : List String) (k : String) (v : Json) (o : ObjectMembers) (ks : List String)
    → fresh (raw_keys (note_member allowed k v o).members) ks ≡ (
        if has_key k (raw_keys o.members)
        then fresh (raw_keys o.members) ks
        else not (has_key k ks) && fresh (raw_keys o.members) ks)
unfolding note_member
fresh-note_member allowed k v o ks =
    ground (arith, fresh-append_one k v o.members ks, find_member-has_key k o.members)

malformed-note_member :
    (allowed : List String) (k : String) (v : Json) (o : ObjectMembers)
    → (note_member allowed k v o).malformed ≡ (
        o.malformed
        || has_key k (raw_keys o.members)
        || not (has_key k allowed)
        || not (is_unique v))
unfolding note_member
malformed-note_member allowed k v o =
    ground (arith, consume_unique-eq v, find_member-has_key k o.members)

-- What a loop that began with `o` refuses.
abbrev pub is_refused : List String → Members → ObjectMembers → Bool
is_refused allowed ms o =
    o.malformed
    || not (
        fresh (raw_keys o.members) (keys_of ms)
        && distinct (keys_of ms)
        && all_allowed allowed (keys_of ms)
        && values_unique ms)

one_refusal :
    (m m' e later f f' d a al u vs : Bool)
    → m' ≡ (m || e || not a || not u)
    → f' ≡ (if e then f else not later && f)
    → (m' || not (f' && d && al && vs))
      ≡ (m || not ((not e && f) && (not later && d) && (a && al) && (u && vs)))
one_refusal m m' e later f f' d a al u vs h i = ground arith

pub read_members-malformed :
    (allowed : List String) (ms : Members) (o : ObjectMembers)
    → (read_members allowed ms o).malformed ≡ is_refused allowed ms o
unfolding read_members fresh distinct all_allowed values_unique
read_members-malformed allowed no_members o = ground arith
read_members-malformed allowed (member k v ms) o =
    read_members-malformed allowed ms (note_member allowed k v o)
    ∙ one_refusal o.malformed (note_member allowed k v o).malformed (has_key k (raw_keys o.members))
        (has_key k (keys_of ms)) (fresh (raw_keys o.members) (keys_of ms))
        (fresh (raw_keys (note_member allowed k v o).members) (keys_of ms)) (distinct (keys_of ms))
        (has_key k allowed) (all_allowed allowed (keys_of ms)) (is_unique v) (values_unique ms)
        (malformed-note_member allowed k v o) (fresh-note_member allowed k v o (keys_of ms))

note_member-members :
    (allowed : List String) (k : String) (v : Json) (o : ObjectMembers)
    → (note_member allowed k v o).malformed ≡ false
    → (note_member allowed k v o).members ≡ o.members ++ ((k, v) ∷ [])
unfolding note_member
note_member-members allowed k v o h = ground arith

note_member-duplicate_id :
    (allowed : List String) (k : String) (v : Json) (o : ObjectMembers)
    → o.duplicate_id ≡ false
    → (note_member allowed k v o).malformed ≡ false
    → (note_member allowed k v o).duplicate_id ≡ false
unfolding note_member
note_member-duplicate_id allowed k v o d h = ground arith

note_member-accepts :
    (allowed : List String) (k : String) (v : Json) (ms : Members) (o : ObjectMembers)
    → (read_members allowed (member k v ms) o).malformed ≡ false
    → (note_member allowed k v o).malformed ≡ false
unfolding read_members
note_member-accepts allowed k v ms o h =
    ground (arith, read_members-malformed allowed ms (note_member allowed k v o))

-- A loop that refuses nothing finds every member.
pub read_members-members :
    (allowed : List String) (ms : Members) (o : ObjectMembers)
    → (read_members allowed ms o).malformed ≡ false
    → (read_members allowed ms o).members ≡ o.members ++ raw_of ms
unfolding read_members
read_members-members allowed no_members o h = sym (append-nil o.members)
read_members-members allowed (member k v ms) o h =
    read_members-members allowed ms (note_member allowed k v o) h
    ∙ ap (λ xs. xs ++ raw_of ms)
        (note_member-members allowed k v o (note_member-accepts allowed k v ms o h))
    ∙ append_assoc o.members ((k, v) ∷ []) (raw_of ms)

pub read_members-duplicate_id :
    (allowed : List String) (ms : Members) (o : ObjectMembers)
    → o.duplicate_id ≡ false
    → (read_members allowed ms o).malformed ≡ false
    → (read_members allowed ms o).duplicate_id ≡ false
unfolding read_members
read_members-duplicate_id allowed no_members o d h = d
read_members-duplicate_id allowed (member k v ms) o d h =
    read_members-duplicate_id allowed ms (note_member allowed k v o)
      (note_member-duplicate_id allowed k v o d (note_member-accepts allowed k v ms o h)) h
