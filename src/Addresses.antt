-- ===== src/Addresses.antt =====
-- lib/address.go: the text of an address, of 32 bytes, with its checksums, and its parsing. BLAKE2b is a
-- parameter. `strings.ToLower` is that of ASCII; a text with other characters is refused either
-- way, as it is no hexadecimal text.
pub mod RoundTrip
use shadowd.Common.{
  ℕ, ◌+◌, ◌-◌, ◌*◌, ◌/◌, ◌%◌, Bool, true, false, ◌&&◌, ◌||◌, not, Option, none, some, List, [], ◌∷◌,
  ◌++◌, any, map, length, get_elem?, leb, ltb, ◌==◌, nat_eq, if◌then◌else◌,
}
use shadowd.Common.Text.{Text, text_eq}
use shadowd.Common.Result.{Result, ok, err, ◌>>=◌, ◌>>◌, fail_if}

-- `AddressTypeWallet`, `AddressTypeLiquidity`, `AddressTypeExchange` and `AddressTypeNFT`
unfoldable pub is_valid_address_type : ℕ → Bool
is_valid_address_type t = (t == b'S') || ((t == b'L') || ((t == b'X') || (t == b'N')))

pub data AddressError : Type 0 where
  too_short bad_type bad_luhn bad_eip55 bad_hex bad_length : AddressError
  address_panic : AddressError

-- `hex.EncodeToString`
abbrev pub hex_digit : ℕ → ℕ
hex_digit n = if ltb n 10 then b'0' + n else b'a' + (n - 10)

unfoldable pub hex_encode : Text → Text
hex_encode [] = []
hex_encode (b ∷ bs) = hex_digit (b / 16) ∷ hex_digit (b % 16) ∷ hex_encode bs

-- `hex.DecodeString` of a text in lower case
abbrev pub hex_value : ℕ → Option ℕ
hex_value c =
    if leb b'0' c && leb c b'9'
    then some (c - b'0')
    else if leb b'a' c && leb c b'f'
    then some (c - b'a' + 10)
    else none

abbrev pub cons_byte : Option ℕ → Option ℕ → Option Text → Option Text
cons_byte (some h) (some l) (some bs) = some ((h * 16 + l) ∷ bs)
cons_byte _ _ _ = none

unfoldable pub hex_decode : Text → Option Text
hex_decode [] = some []
hex_decode (h ∷ []) = none
hex_decode (h ∷ l ∷ s) = cons_byte (hex_value h) (hex_value l) (hex_decode s)

-- `strings.ToLower`
abbrev pub lower_char : ℕ → ℕ
lower_char c = if leb b'A' c && leb c b'Z' then c + 32 else c

unfoldable pub to_lower : Text → Text
to_lower s = map lower_char s

-- the nibble of the hash for a place of the text; a place behind the hash is a panic
abbrev pub nibble : Text → ℕ → Option ℕ
nibble hash i = elim (get_elem? hash (i / 2)) [
  | none ↦ none
  | some b ↦ some (if i % 2 == 0 then b / 16 % 16 else b % 16)
]

abbrev pub is_lower_hex : ℕ → Bool
is_lower_hex c = leb b'a' c && leb c b'f'

abbrev pub cased : ℕ → ℕ → ℕ
cased c n = if leb 8 n then c - 32 else c

abbrev pub cons_cased : ℕ → Option ℕ → Option Text → Option Text
cons_cased c (some n) (some s) = some (cased c n ∷ s)
cons_cased c _ _ = none

abbrev pub cons_same : ℕ → Option Text → Option Text
cons_same c (some s) = some (c ∷ s)
cons_same c none = none

-- the loop of `applyEIP55Checksum` from a place on
unfoldable pub eip55_from : Text → ℕ → Text → Option Text
eip55_from hash i [] = some []
eip55_from hash i (c ∷ s) =
    let rest : Option Text = eip55_from hash (i + 1) s in
    if is_lower_hex c then cons_cased c (nibble hash i) rest else cons_same c rest

-- `hasMixedCase`
unfoldable pub has_mixed_case : Text → Bool
has_mixed_case s = any (λ c. leb b'A' c && leb c b'F') s && any is_lower_hex s

-- the digit of a character in `calculateLuhnChecksum`
abbrev pub luhn_digit : ℕ → Option ℕ
luhn_digit c =
    if leb b'0' c && leb c b'9'
    then some (c - b'0')
    else if leb b'a' c && leb c b'z'
    then some (c - b'a' + 10)
    else if leb b'A' c && leb c b'Z'
    then some (c - b'A' + 36)
    else none

abbrev pub doubled : ℕ → ℕ
doubled d = if ltb 9 (d * 2) then d * 2 - 9 else d * 2

abbrev pub luhn_step : Option ℕ → Bool × ℕ → Bool × ℕ
luhn_step none state = state
luhn_step (some d) (odd, sum) = (not odd, if odd then sum + doubled d else sum + d)

-- the loop from the right: whether the next digit is doubled, and the sum
unfoldable pub luhn_sum : Text → Bool × ℕ
luhn_sum [] = (true, 0)
luhn_sum (c ∷ s) = luhn_step (luhn_digit c) (luhn_sum s)

-- `calculateLuhnChecksum`
unfoldable pub calculate_luhn_checksum : Text → ℕ
calculate_luhn_checksum s = b'0' + (10 - (luhn_sum s).1 % 10) % 10

-- the text without its last character, and the last character
unfoldable pub all_but_last : Text → Text
all_but_last [] = []
all_but_last (c ∷ []) = []
all_but_last (c ∷ d ∷ s) = c ∷ all_but_last (d ∷ s)

unfoldable pub last_char : Text → ℕ
last_char [] = 0
last_char (c ∷ []) = c
last_char (c ∷ d ∷ s) = last_char (d ∷ s)

abbrev pub some_or : {A : Type 0} → AddressError → Option A → Result AddressError A
some_or e none = err e
some_or e (some a) = ok a

-- the text with its prefix and its Luhn character
abbrev pub with_luhn : ℕ → Text → Text
with_luhn ty s = ty ∷ (s ++ (calculate_luhn_checksum (to_lower (ty ∷ s)) ∷ []))

module _ (blake2b : Text → Text) where
  -- `applyEIP55Checksum`; `none` is a panic
  unfoldable pub apply_eip55 : Text → Option Text
  apply_eip55 s = eip55_from (blake2b (to_lower s)) 0 s

  -- `validateEIP55Checksum`
  abbrev pub validate_eip55 : Text → Result AddressError (Unit {0})
  validate_eip55 s = do
    expected ← some_or address_panic (apply_eip55 s)
    fail_if (not (s == expected)) bad_eip55

  abbrev pub check_case : Text → Result AddressError (Unit {0})
  check_case s = if has_mixed_case s then validate_eip55 s else ok tt

  -- `StringWithType`, and `String` with the type of a wallet
  unfoldable pub string_with_type : ℕ → Text → Option Text
  string_with_type ty address = elim (apply_eip55 (hex_encode address)) [
    | none ↦ none
    | some s ↦ some (with_luhn ty s)
  ]

  -- `ParseAddress` on the prefix, the middle and the last character
  unfoldable pub parse_parts : ℕ → Text → ℕ → Result AddressError (Text × ℕ)
  parse_parts ty middle luhn = do
    fail_if (not (is_valid_address_type ty)) bad_type
    fail_if (not (luhn == calculate_luhn_checksum (to_lower (ty ∷ middle)))) bad_luhn
    check_case middle
    address ← some_or bad_hex (hex_decode (to_lower middle))
    fail_if (not (length address == 32)) bad_length
    ok (address, ty)

  -- `ParseAddress`
  unfoldable pub parse_address : Text → Result AddressError (Text × ℕ)
  parse_address [] = err too_short
  parse_address (ty ∷ s) =
      if ltb (length s) 2 then err too_short else parse_parts ty (all_but_last s) (last_char s)

  -- `ValidateAddress`
  unfoldable pub validate_address : Text → Bool
  validate_address s = elim (parse_address s) [ ok a ↦ true | err e ↦ false ]
