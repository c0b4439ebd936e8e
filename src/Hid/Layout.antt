-- ===== src/Hid/Layout.antt =====
-- internal/jetkvm/hid.go: what a host with a US keyboard reads from the reports of a text.
use jetkvm_mcp.Base.{
  all_below, all_below-holds, ℕ, ◌-◌, ◌≤◌, Bool, true, false, not, ◌&&◌, ◌||◌, Option, none, some,
  List, [], ◌∷◌, ◌≡◌, refl, ◌==◌, leb, ltb, get_elem?, is_some, if◌then◌else◌, arith, Option-cases,
  Bool-cases, inl, inr,
}
use jetkvm_mcp.Base.Assoc.{lookup}
use jetkvm_mcp.Hid.Keys.{KeyReport, index_byte, keyboard_report_for_byte, reports_of_bytes}

-- The bytes of the usages from 4 on, by the HID usage tables, without and with shift; 0 is a key that
-- types nothing here.
abbrev plain_keys : List ℕ
plain_keys =
    97 ∷ 98 ∷ 99 ∷ 100 ∷ 101 ∷ 102 ∷ 103 ∷ 104 ∷ 105 ∷ 106 ∷ 107 ∷ 108 ∷ 109 ∷ 110 ∷ 111 ∷ 112 ∷ 113
    ∷ 114 ∷ 115 ∷ 116 ∷ 117 ∷ 118 ∷ 119 ∷ 120 ∷ 121 ∷ 122 ∷ 49 ∷ 50 ∷ 51 ∷ 52 ∷ 53 ∷ 54 ∷ 55 ∷ 56
    ∷ 57 ∷ 48 ∷ 10 ∷ 0 ∷ 0 ∷ 9 ∷ 32 ∷ 45 ∷ 61 ∷ 91 ∷ 93 ∷ 92 ∷ 0 ∷ 59 ∷ 39 ∷ 96 ∷ 44 ∷ 46 ∷ 47 ∷ []

abbrev shifted_keys : List ℕ
shifted_keys =
    65 ∷ 66 ∷ 67 ∷ 68 ∷ 69 ∷ 70 ∷ 71 ∷ 72 ∷ 73 ∷ 74 ∷ 75 ∷ 76 ∷ 77 ∷ 78 ∷ 79 ∷ 80 ∷ 81 ∷ 82 ∷ 83
    ∷ 84 ∷ 85 ∷ 86 ∷ 87 ∷ 88 ∷ 89 ∷ 90 ∷ 33 ∷ 64 ∷ 35 ∷ 36 ∷ 37 ∷ 94 ∷ 38 ∷ 42 ∷ 40 ∷ 41 ∷ 0 ∷ 0 ∷ 0
    ∷ 0 ∷ 0 ∷ 95 ∷ 43 ∷ 123 ∷ 125 ∷ 124 ∷ 0 ∷ 58 ∷ 34 ∷ 126 ∷ 60 ∷ 62 ∷ 63 ∷ []

-- The byte that a report types.
unfoldable pub typed_byte : KeyReport → Option ℕ
typed_byte r =
    if ltb r.usage 4
    then none
    else if r.modifier == 0
    then get_elem? plain_keys (r.usage - 4)
    else if r.modifier == 2
    then get_elem? shifted_keys (r.usage - 4)
    else none

-- Carriage return types the same as line feed.
abbrev pub unified : ℕ → ℕ
unified b = if b == 13 then 10 else b

-- Tab, line feed, carriage return and printable US-ASCII.
abbrev pub is_supported : ℕ → Bool
is_supported b = b == 9 || b == 10 || b == 13 || (leb 32 b && leb b 126)

abbrev same_byte : ℕ → Option ℕ → Bool
same_byte b none = false
same_byte b (some c) = c == unified b

abbrev agrees : ℕ → Option KeyReport → Bool
agrees b none = not (is_supported b)
agrees b (some r) = is_supported b && same_byte b (typed_byte r)

abbrev agrees_at : ℕ → Bool
agrees_at b = agrees b (keyboard_report_for_byte b)

all_128 : all_below agrees_at 128 ≡ true
unfolding all_below keyboard_report_for_byte typed_byte lookup index_byte
all_128 = refl

high-none : (b : ℕ) → 128 ≤ b → keyboard_report_for_byte b ≡ none
unfolding keyboard_report_for_byte index_byte lookup
high-none b h = ground arith

agrees_always : (b : ℕ) → agrees b (keyboard_report_for_byte b) ≡ true
agrees_always b = elim (Bool-cases (ltb b 128)) [
  | inl e ↦ all_below-holds agrees_at 128 b all_128 (ground arith)
  | inr e ↦ ground (arith, high-none b)
]

-- The bytes that have a report are tab, line feed, carriage return and printable US-ASCII, and no
-- others.
pub keyboard_report_for_byte-supported :
    (b : ℕ) → is_some (keyboard_report_for_byte b) ≡ is_supported b
keyboard_report_for_byte-supported b =
    ground (arith, agrees_always b, Option-cases (keyboard_report_for_byte b))

-- What a host types for a list of reports, and what text it is meant to be.
unfoldable pub typed_bytes : List KeyReport → List (Option ℕ)
typed_bytes [] = []
typed_bytes (r ∷ rs) = typed_byte r ∷ typed_bytes rs

unfoldable pub unified_text : List ℕ → List (Option ℕ)
unified_text [] = []
unified_text (b ∷ bs) = some (unified b) ∷ unified_text bs

keyboard_report_for_byte-typed :
    (b : ℕ) (r : KeyReport) → keyboard_report_for_byte b ≡ some r → typed_byte r ≡ some (unified b)
keyboard_report_for_byte-typed b r h = ground (arith, agrees_always b, Option-cases (typed_byte r))

-- Where a text has reports, a host with a US keyboard types from them the text, with carriage returns
-- as line feeds.
pub reports_of_bytes-typed :
    (bs : List ℕ) (rs : List KeyReport)
    → reports_of_bytes bs ≡ some rs
    → typed_bytes rs ≡ unified_text bs
unfolding reports_of_bytes typed_bytes unified_text
reports_of_bytes-typed [] rs h = ground arith
reports_of_bytes-typed (b ∷ bs) rs h = elim (Option-cases (keyboard_report_for_byte b)) [
  | inl e ↦ absurd (ground arith)
  | inr (r, e) ↦ elim (Option-cases (reports_of_bytes bs)) [
    | inl f ↦ absurd (ground arith)
    | inr (qs, f) ↦
        ground (arith, keyboard_report_for_byte-typed b r e, reports_of_bytes-typed bs qs f)
  ]
]
