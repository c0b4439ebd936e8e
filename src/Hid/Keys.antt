-- ===== src/Hid/Keys.antt =====
-- internal/jetkvm/hid.go: the report of a byte of text (keyboardReportForByte). A byte is a number.
use jetkvm_mcp.Base.{
  ℕ, suc, ◌+◌, ◌-◌, ◌&&◌, ◌||◌, Option, none, some, List, [], ◌∷◌, ◌==◌, leb, if◌then◌else◌,
}
use jetkvm_mcp.Base.Assoc.{lookup}

pub record KeyReport : Type 0 where
  pub modifier : ℕ
  pub usage : ℕ

abbrev plain : ℕ → KeyReport
plain usage = record { modifier = 0; usage = usage }

abbrev shifted : ℕ → KeyReport
shifted usage = record { modifier = 2; usage = usage }

abbrev pub punctuation_usages : List (ℕ × KeyReport)
punctuation_usages =
    (45, plain 45)
    ∷ (95, shifted 45)
    ∷ (61, plain 46)
    ∷ (43, shifted 46)
    ∷ (91, plain 47)
    ∷ (123, shifted 47)
    ∷ (93, plain 48)
    ∷ (125, shifted 48)
    ∷ (92, plain 49)
    ∷ (124, shifted 49)
    ∷ (59, plain 51)
    ∷ (58, shifted 51)
    ∷ (39, plain 52)
    ∷ (34, shifted 52)
    ∷ (96, plain 53)
    ∷ (126, shifted 53)
    ∷ (44, plain 54)
    ∷ (60, shifted 54)
    ∷ (46, plain 55)
    ∷ (62, shifted 55)
    ∷ (47, plain 56)
    ∷ (63, shifted 56)
    ∷ []

-- "!@#$%^&*()"
abbrev pub digit_symbols : List ℕ
digit_symbols = 33 ∷ 64 ∷ 35 ∷ 36 ∷ 37 ∷ 94 ∷ 38 ∷ 42 ∷ 40 ∷ 41 ∷ []

-- strings.IndexByte, and `none` for -1
unfoldable pub index_byte : List ℕ → ℕ → ℕ → Option ℕ
index_byte [] b i = none
index_byte (x ∷ xs) b i = let rest = index_byte xs b (suc i) in if x == b then some i else rest

abbrev symbol_report : ℕ → Option ℕ → Option KeyReport
symbol_report b none = lookup b punctuation_usages
symbol_report b (some i) = some (shifted (if i == 9 then 39 else 30 + i))

unfoldable pub keyboard_report_for_byte : ℕ → Option KeyReport
unfolding lookup index_byte
keyboard_report_for_byte b =
    if leb 97 b && leb b 122
    then some (plain (4 + (b - 97)))
    else if leb 65 b && leb b 90
    then some (shifted (4 + (b - 65)))
    else if leb 49 b && leb b 57
    then some (plain (30 + (b - 49)))
    else if b == 48
    then some (plain 39)
    else if b == 10 || b == 13
    then some (plain 40)
    else if b == 9
    then some (plain 43)
    else if b == 32
    then some (plain 44)
    else symbol_report b (index_byte digit_symbols b 0)

abbrev with_report : KeyReport → Option (List KeyReport) → Option (List KeyReport)
with_report r none = none
with_report r (some rs) = some (r ∷ rs)

-- The text of `keyboardReports`, byte by byte.
unfoldable pub reports_of_bytes : List ℕ → Option (List KeyReport)
unfolding keyboard_report_for_byte
reports_of_bytes [] = some []
reports_of_bytes (b ∷ bs) = elim (keyboard_report_for_byte b) [
  | none ↦ none
  | some r ↦ with_report r (reports_of_bytes bs)
]
