-- ===== src/Tools/Bearer.antt =====
-- internal/mcpserver/transport.go: the credential of an Authorization header. Texts are their bytes: the
-- characters above ASCII that a text may have are refused, byte by byte as well as one by one.
pub mod Grammar
use jetkvm_mcp.Base.{
  ℕ, ◌+◌, Bool, true, false, not, ◌&&◌, ◌||◌, Option, none, some, List, [], ◌∷◌, ◌==◌, leb,
  is_empty, if◌then◌else◌,
}

abbrev pub Text : Type 0
Text = List ℕ

-- "bearer"
abbrev pub bearer_scheme : Text
bearer_scheme = 98 ∷ 101 ∷ 97 ∷ 114 ∷ 101 ∷ 114 ∷ []

abbrev pub lower : ℕ → ℕ
lower b = if leb 65 b && leb b 90 then b + 32 else b

-- strings.EqualFold with a text in lower case
unfoldable pub equal_fold : Text → Text → Bool
equal_fold [] [] = true
equal_fold (p ∷ ps) (b ∷ bs) = lower b == p && equal_fold ps bs
equal_fold _ _ = false

-- The text before the first space, and from it on.
abbrev pub put_before : ℕ → Option (Text × Text) → Option (Text × Text)
put_before b none = none
put_before b (some (before, rest)) = some (b ∷ before, rest)

unfoldable pub split_space : Text → Option (Text × Text)
split_space [] = none
split_space (b ∷ bs) =
    let rest = put_before b (split_space bs) in if b == 32 then some ([], b ∷ bs) else rest

unfoldable pub drop_spaces : Text → Text
drop_spaces [] = []
drop_spaces (b ∷ bs) = let rest = drop_spaces bs in if b == 32 then rest else b ∷ bs

unfoldable pub bearer_token68_character : ℕ → Bool
bearer_token68_character b =
    leb 97 b && leb b 122
    || leb 65 b && leb b 90
    || leb 48 b && leb b 57
    || b == 45
    || b == 46
    || b == 95
    || b == 126
    || b == 43
    || b == 47

-- The loop over a credential, with `data` and `padding`.
unfoldable pub scan_credential : Bool → Bool → Text → Bool
scan_credential data_seen padding [] = true
scan_credential data_seen padding (b ∷ bs) =
    let padded = scan_credential data_seen true bs in
    let next = scan_credential true padding bs in
    if b == 61
    then data_seen && padded
    else not (padding || not (bearer_token68_character b)) && next

abbrev pub checked_credential : Text → Option Text
checked_credential c =
    if is_empty c then none else if scan_credential false false c then some c else none

abbrev pub with_scheme : Option (Text × Text) → Option Text
with_scheme none = none
with_scheme (some (scheme, rest)) =
    if is_empty scheme || not (equal_fold bearer_scheme scheme)
    then none
    else checked_credential (drop_spaces rest)

unfoldable pub parse_bearer_credential : List Text → Option Text
parse_bearer_credential [] = none
parse_bearer_credential (authorization ∷ []) = with_scheme (split_space authorization)
parse_bearer_credential (authorization ∷ other ∷ more) = none
