-- ===== src/Tools/Bearer/Grammar.antt =====
-- internal/mcpserver/transport.go: parseBearerCredential against the grammar of RFC 6750 and RFC 7235.
use jetkvm_mcp.Base.{
  ℕ, zero, suc, Bool, true, false, not, ◌&&◌, Option, none, some, List, [], ◌∷◌, ◌++◌, ◌≡◌, ◌↔◌,
  inl, inr, refl, sym, ap, ◌∙◌, arith, ◌==◌, length, is_empty, Option-cases, Bool-cases,
}
use mathlib.Core.Path.{subst}
use jetkvm_mcp.Tools.Bearer.{
  Text, bearer_scheme, bearer_token68_character, checked_credential, drop_spaces, equal_fold,
  parse_bearer_credential, scan_credential, split_space, with_scheme,
}

unfoldable pub copies : ℕ → ℕ → Text
copies zero b = []
copies (suc n) b = b ∷ copies n b

unfoldable pub all_token68 : Text → Bool
all_token68 [] = true
all_token68 (b ∷ bs) = bearer_token68_character b && all_token68 bs

-- token68 = 1*( ALPHA / DIGIT / "-" / "." / "_" / "~" / "+" / "/" ) *"="
pub record IsToken68 (first : ℕ) (body : Text) (pads : ℕ) (credential : Text) : Type 0 where
  pub form : credential ≡ (first ∷ body) ++ copies pads 61
  pub characters : all_token68 (first ∷ body) ≡ true

scan-pads : (bs : Text) → scan_credential true true bs ≡ true → bs ≡ copies (length bs) 61
unfolding scan_credential copies
scan-pads [] h = refl
scan-pads (b ∷ bs) h = ground (arith, scan-pads bs)

scan-copies : (n : ℕ) → scan_credential true true (copies n 61) ≡ true
unfolding scan_credential copies
scan-copies zero = refl
scan-copies (suc n) = ground (arith, scan-copies n)

-- From the second character on.
scan-body :
    (bs : Text)
    → scan_credential true false bs ≡ true
    → (body : Text) × (n : ℕ) × (bs ≡ body ++ copies n 61) × (all_token68 body ≡ true)
unfolding scan_credential all_token68 copies
scan-body [] h = ([], 0, refl, refl)
scan-body (b ∷ bs) h = elim (Bool-cases (b == 61)) [
  | inl e ↦ ([], length (b ∷ bs), scan-pads (b ∷ bs) (ground arith), refl)
  | inr e ↦
      let (body, n, q, t) = scan-body bs (ground arith) in
      (b ∷ body, n, ap (λ xs. b ∷ xs) q, ground arith)
]

body-scan :
    (body : Text) (n : ℕ)
    → all_token68 body ≡ true
    → scan_credential true false (body ++ copies n 61) ≡ true
unfolding scan_credential all_token68 copies bearer_token68_character
body-scan [] zero h = refl
body-scan [] (suc n) h = ground (arith, scan-copies n)
body-scan (b ∷ body) n h = ground (arith, body-scan body n)

checked_credential-IsToken68 :
    (bs c : Text)
    → checked_credential bs ≡ some c
    → (bs ≡ c) × ((first : ℕ) × (body : Text) × (n : ℕ) × IsToken68 first body n c)
unfolding scan_credential all_token68
checked_credential-IsToken68 [] c h = absurd (cc)
checked_credential-IsToken68 (b ∷ bs) c h =
    let (body, n, q, t) = scan-body bs (ground arith) in
    let e : (b ∷ bs) ≡ c = ground arith in
    (e, (b, body, n, record { form = sym e ∙ ap (λ xs. b ∷ xs) q; characters = ground arith }))

IsToken68-checked_credential :
    (first : ℕ) (body : Text) (n : ℕ) (c : Text)
    → IsToken68 first body n c
    → checked_credential c ≡ some c
unfolding scan_credential all_token68 bearer_token68_character
IsToken68-checked_credential first body n c t =
    let r : checked_credential ((first ∷ body) ++ copies n 61)
        ≡ some ((first ∷ body) ++ copies n 61) =
      ground (arith, body-scan body n, t.characters) in
    subst (λ x. checked_credential x ≡ some x) (sym t.form) r

drop_spaces-form : (bs : Text) → (n : ℕ) × (bs ≡ copies n 32 ++ drop_spaces bs)
unfolding drop_spaces copies
drop_spaces-form [] = (0, refl)
drop_spaces-form (b ∷ bs) = elim (Bool-cases (b == 32)) [
  | inl e ↦ let (n, q) = drop_spaces-form bs in (suc n, ground arith)
  | inr e ↦ (0, ground arith)
]

drop_spaces-copies :
    (n first : ℕ) (rest : Text)
    → bearer_token68_character first ≡ true
    → drop_spaces (copies n 32 ++ (first ∷ rest)) ≡ first ∷ rest
unfolding drop_spaces copies bearer_token68_character
drop_spaces-copies zero first rest h = ground arith
drop_spaces-copies (suc n) first rest h = ground (arith, drop_spaces-copies n first rest h)

split_space-form :
    (a s r : Text) → split_space a ≡ some (s, r) → (a ≡ s ++ r) × ((rest : Text) × (r ≡ 32 ∷ rest))
unfolding split_space
split_space-form [] s r h = absurd (cc)
split_space-form (b ∷ bs) s r h = elim (Bool-cases (b == 32)) [
  | inl e ↦ (ground arith, (bs, ground arith))
  | inr e ↦ elim (Option-cases (split_space bs)) [
    | inl q ↦ ground arith
    | inr ((t, u), q) ↦
        let (f, (rest, g)) = split_space-form bs t u q in (ground arith, (rest, ground arith))
  ]
]

abbrev no_space : Text → Bool
no_space [] = true
no_space (b ∷ bs) = not (b == 32) && no_space bs

split_space-fold :
    (ps s r : Text)
    → no_space ps ≡ true
    → equal_fold ps s ≡ true
    → split_space (s ++ (32 ∷ r)) ≡ some (s, 32 ∷ r)
unfolding split_space equal_fold
split_space-fold [] [] r n h = refl
split_space-fold [] (b ∷ s) r n h = absurd (cc)
split_space-fold (p ∷ ps) [] r n h = absurd (cc)
split_space-fold (p ∷ ps) (b ∷ s) r n h = ground (arith, split_space-fold ps s r)

-- credentials = "Bearer" 1*SP token68, where the scheme is compared without case.
pub record IsBearer (values : List Text) (scheme : Text) (spaces : ℕ) (credential : Text)
    : Type 0 where
  pub header : values ≡ (scheme ++ (32 ∷ (copies spaces 32 ++ credential))) ∷ []
  pub scheme_name : equal_fold bearer_scheme scheme ≡ true
  pub token : (first : ℕ) × (body : Text) × (pads : ℕ) × IsToken68 first body pads credential

with_scheme-form :
    (o : Option (Text × Text)) (c : Text)
    → with_scheme o ≡ some c
    → (scheme : Text) × (rest : Text) × (o ≡ some (scheme, rest))
      × (equal_fold bearer_scheme scheme ≡ true)
      × (checked_credential (drop_spaces rest) ≡ some c)
with_scheme-form none c h = absurd (cc)
with_scheme-form (some (scheme, rest)) c h = (scheme, rest, refl, ground arith, ground arith)

drop_spaces-cons :
    (rest more c : Text) → rest ≡ 32 ∷ more → drop_spaces rest ≡ c → drop_spaces more ≡ c
unfolding drop_spaces
drop_spaces-cons rest more c g h = ground arith

header-IsBearer :
    (a c : Text)
    → with_scheme (split_space a) ≡ some c
    → (scheme : Text) × (spaces : ℕ) × IsBearer (a ∷ []) scheme spaces c
header-IsBearer a c h =
    let (scheme, rest, q, f, k) = with_scheme-form (split_space a) c h in
    let (e, (more, g)) = split_space-form a scheme rest q in
    let (n, d) = drop_spaces-form more in
    let t = checked_credential-IsToken68 (drop_spaces rest) c k in
    let m = d ∙ ap (λ x. copies n 32 ++ x) (drop_spaces-cons rest more c g t.0) in
    (
      scheme,
      n,
      record {
        header = ap (λ x. x ∷ []) (e ∙ ap (λ r. scheme ++ r) (g ∙ ap (λ x. 32 ∷ x) m));
        scheme_name = f;
        token = t.1;
      },
    )

fold-is_empty : (s : Text) → equal_fold bearer_scheme s ≡ true → is_empty s ≡ false
unfolding equal_fold
fold-is_empty [] h = cc
fold-is_empty (b ∷ s) h = refl

token-first :
    (first : ℕ) (body : Text) (pads : ℕ) (c : Text)
    → IsToken68 first body pads c
    → (bearer_token68_character first ≡ true) × (c ≡ first ∷ (body ++ copies pads 61))
unfolding all_token68
token-first first body pads c t = (ground (arith, t.characters), t.form)

spaced_credential :
    (spaces first : ℕ) (body : Text) (pads : ℕ) (c : Text)
    → IsToken68 first body pads c
    → drop_spaces (32 ∷ (copies spaces 32 ++ c)) ≡ c
unfolding copies
spaced_credential spaces first body pads c t =
    let f = token-first first body pads c t in
    subst (λ x. drop_spaces (32 ∷ (copies spaces 32 ++ x)) ≡ x) (sym f.1)
      (drop_spaces-copies (suc spaces) first (body ++ copies pads 61) f.0)

IsBearer-header :
    (scheme : Text) (spaces first : ℕ) (body : Text) (pads : ℕ) (c : Text)
    → equal_fold bearer_scheme scheme ≡ true
    → IsToken68 first body pads c
    → with_scheme (split_space (scheme ++ (32 ∷ (copies spaces 32 ++ c)))) ≡ some c
IsBearer-header scheme spaces first body pads c f t = ground (
  arith,
  split_space-fold bearer_scheme scheme (copies spaces 32 ++ c) refl f,
  fold-is_empty scheme f,
  spaced_credential spaces first body pads c t,
  IsToken68-checked_credential first body pads c t,
)

values-IsBearer :
    (values : List Text) (c : Text)
    → parse_bearer_credential values ≡ some c
    → (scheme : Text) × (spaces : ℕ) × IsBearer values scheme spaces c
unfolding parse_bearer_credential
values-IsBearer [] c h = absurd (cc)
values-IsBearer (a ∷ []) c h = header-IsBearer a c h
values-IsBearer (a ∷ b ∷ more) c h = absurd (cc)

IsBearer-values :
    (values : List Text) (c scheme : Text) (spaces : ℕ)
    → IsBearer values scheme spaces c
    → parse_bearer_credential values ≡ some c
unfolding parse_bearer_credential
IsBearer-values values c scheme spaces b =
    let (first, body, pads, t) = b.token in
    ap parse_bearer_credential b.header
    ∙ IsBearer-header scheme spaces first body pads c b.scheme_name t

-- A credential is taken from the Authorization headers exactly if there is one header, which is the word
-- "Bearer" in any case, one or more spaces, and a token68 as RFC 7235 has it, which is the credential.
pub parse_bearer_credential-IsBearer :
    (values : List Text) (c : Text)
    → (parse_bearer_credential values ≡ some c)
      ↔ ((scheme : Text) × (spaces : ℕ) × IsBearer values scheme spaces c)
parse_bearer_credential-IsBearer values c =
    (values-IsBearer values c, λ (scheme, spaces, b). IsBearer-values values c scheme spaces b)
