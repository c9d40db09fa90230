-- ===== src/Normalization.antt =====
-- src/wordsworth/normalization.py: one spelling of a value before its token is derived. Unicode
-- tables and `strptime` are the parameter `Unicode`; upper case is that of the letters A to Z.
use Prim.Native.Char.{Char, code}
use Prim.Native.String.{[] as empty, ◌∷◌ as cons_text, ◌++◌ as append_string, count}
use wordsworth.Prelude.{
  ℕ, zero, suc, ◌-◌, String, Bool, false, ◌&&◌, ◌||◌, Option, none, some, List, [], ◌∷◌, ◌==◌,
  nat_eq, string_eq, contains, if◌then◌else◌,
}
use wordsworth.Text.{is_space, strip, upper}

pub record Unicode : Type 0 where
  -- `unicodedata.normalize("NFC", s)` and `s.casefold()`
  pub nfc : String → String
  pub casefold : String → String
  -- `c.isdigit()` of one character
  pub is_digit : Char → Bool
  -- `datetime.strptime(s, fmt).date().isoformat()`, unless it raises
  pub strptime : String → String → Option String

-- `PROFILE_VERSION`
abbrev pub profile_version : String
profile_version = "n1"

-- `_DATE_FORMATS`
abbrev pub date_formats : List String
date_formats = "%Y-%m-%d" ∷ "%d-%m-%Y" ∷ "%d/%m/%Y" ∷ "%d.%m.%Y" ∷ "%Y%m%d" ∷ []

-- `_SEP_RE`, and the pattern's removal
unfoldable pub is_separator : Char → Bool
is_separator c = is_space c || code c == 46 || code c == 45

unfoldable pub without_chars : (Char → Bool) → String → String
without_chars p empty = ""
without_chars p (cons_text c s) =
    let rest = without_chars p s in if p c then rest else cons_text c rest

abbrev pub zeros : ℕ → String
zeros zero = ""
zeros (suc n) = append_string "0" (zeros n)

-- `s.zfill(9)` of a text without a sign
unfoldable pub zfill_nine : String → String
zfill_nine s = append_string (zeros (9 - count s)) s

pub data Rule : Type 0 where
  default_rule casefold_rule bsn_rule postcode_rule date_rule : Rule

-- `RULES`
unfoldable pub rule_of : String → Rule
rule_of label =
    if label == "BSN"
    then bsn_rule
    else if label == "POSTCODE"
    then postcode_rule
    else if contains
        ("PERSON" ∷ "PERSOON" ∷ "LOCATION" ∷ "LOCATIE" ∷ "ADRES" ∷ "ADDRESS" ∷ "ORGANIZATION"
          ∷ "ORGANISATIE" ∷ "EMAIL" ∷ "EMAIL_ADDRESS" ∷ [])
        label
    then casefold_rule
    else if contains ("DATE" ∷ "DATE_TIME" ∷ "GEBOORTEDATUM" ∷ []) label
    then date_rule
    else default_rule

module _ (u : Unicode) where
  unfoldable pub is_digits : String → Bool
  is_digits empty = false
  is_digits (cons_text c empty) = u.is_digit c
  is_digits (cons_text c (cons_text d s)) = u.is_digit c && is_digits (cons_text d s)

  -- `_default`
  unfoldable pub default_form : String → String
  unfolding strip
  default_form value = strip (u.nfc value)

  -- `_bsn`
  unfoldable pub bsn_form : String → String
  unfolding without_chars is_separator is_digits zfill_nine default_form
  bsn_form value =
      let digits = without_chars is_separator (default_form value) in
      if is_digits digits then zfill_nine digits else default_form value

  -- The first of the formats that reads the text.
  unfoldable pub first_date : List String → String → String
  first_date [] raw = raw
  first_date (fmt ∷ fmts) raw = elim (u.strptime raw fmt) [
    | none ↦ first_date fmts raw
    | some d ↦ d
  ]

  abbrev pub apply_rule : Rule → String → String
  unfolding default_form bsn_form without_chars is_space upper first_date
  apply_rule default_rule value = default_form value
  apply_rule casefold_rule value = u.casefold (default_form value)
  apply_rule bsn_rule value = bsn_form value
  apply_rule postcode_rule value = upper (without_chars is_space (default_form value))
  apply_rule date_rule value = first_date date_formats (default_form value)

  unfoldable pub normalize : String → String → String
  unfolding rule_of upper
  normalize label value = apply_rule (rule_of (upper label)) value
