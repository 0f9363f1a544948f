-- ===== src/Addresses/RoundTrip.antt =====
-- The text of an address, parsed.
use shadowd.Common.{
  ℕ, zero, suc, ◌+◌, ◌*◌, ◌/◌, ◌%◌, ◌≡◌, ◌≤◌, ◌<◌, refl, sym, ap, ◌∙◌, true, false, Bool-cases, inl,
  inr, ◌⊎◌, some, Option-cases, [], ◌∷◌, ◌++◌, length, get_elem?, length-append, All, arith,
  if◌then◌else◌, ltb, ◌==◌, nat_eq,
}
use mathlib.Core.Path.{subst}
use shadowd.Common.Text.{Text, text_eq, text_beq_iff}
use shadowd.Common.Result.{ok}
use shadowd.Addresses.{
  is_valid_address_type, hex_digit, hex_encode, hex_value, hex_decode, lower_char, to_lower, nibble,
  is_lower_hex, cased, eip55_from, calculate_luhn_checksum, all_but_last, last_char, apply_eip55,
  with_luhn, string_with_type, parse_parts, parse_address,
}

-- a byte
abbrev pub IsByte : ℕ → Type 0
IsByte b = b < 256

hex_value-digit : (n : ℕ) → n < 16 → hex_value (hex_digit n) ≡ some n
hex_value-digit n h = ground arith

hex_decode-encode : (bs : Text) → All IsByte bs → hex_decode (hex_encode bs) ≡ some bs
unfolding hex_decode hex_encode
hex_decode-encode [] all = refl
hex_decode-encode (b ∷ bs) (h, all) = ground (
  arith,
  hex_decode-encode bs all,
  hex_value-digit (b / 16) (omega arith),
  hex_value-digit (b % 16) (omega arith),
)

lower_digit : (n : ℕ) → n < 16 → lower_char (hex_digit n) ≡ hex_digit n
lower_digit n h = ground arith

lower_hex : (bs : Text) → All IsByte bs → to_lower (hex_encode bs) ≡ hex_encode bs
unfolding to_lower hex_encode
lower_hex [] all = refl
lower_hex (b ∷ bs) (h, all) = ground (
  arith,
  lower_hex bs all,
  lower_digit (b / 16) (omega arith),
  lower_digit (b % 16) (omega arith),
)

length-hex_encode : (bs : Text) → length (hex_encode bs) ≡ 2 * length bs
unfolding hex_encode
length-hex_encode [] = refl
length-hex_encode (b ∷ bs) = omega (arith, length-hex_encode bs)

get_elem?-some : (s : Text) (i : ℕ) → i < length s → (b : ℕ) × (get_elem? s i ≡ some b)
get_elem?-some [] i h = absurd (omega arith)
get_elem?-some (b ∷ s) zero h = (b, refl)
get_elem?-some (b ∷ s) (suc i) h = get_elem?-some s i (omega arith)

nibble-some : (hash : Text) (i : ℕ) → i < 2 * length hash → (n : ℕ) × (nibble hash i ≡ some n)
nibble-some hash i h =
    let (b, e) = get_elem?-some hash (i / 2) (omega arith) in
    ((if i % 2 == 0 then b / 16 % 16 else b % 16), ground arith)

eip55_from-total :
    (hash : Text) (i : ℕ) (s : Text)
    → i + length s ≤ 2 * length hash
    → (t : Text) × (eip55_from hash i s ≡ some t)
unfolding eip55_from
eip55_from-total hash i [] h = ([], refl)
eip55_from-total hash i (c ∷ s) h =
    let (t, e) = eip55_from-total hash (i + 1) s (omega arith) in
    let (n, e') = nibble-some hash i (omega arith) in
    elim (Bool-cases (is_lower_hex c)) [
      | inl yes' ↦ (cased c n ∷ t, ground arith)
      | inr no' ↦ (c ∷ t, ground arith)
    ]

-- the first step of the loop, where it succeeds
eip55-step :
    (hash : Text) (i c : ℕ) (s t : Text)
    → eip55_from hash i (c ∷ s) ≡ some t
    → (u : Text) × (eip55_from hash (i + 1) s ≡ some u)
      × (((n : ℕ) × (nibble hash i ≡ some n) × (is_lower_hex c ≡ true) × (t ≡ cased c n ∷ u))
          ⊎ ((is_lower_hex c ≡ false) × (t ≡ c ∷ u)))
unfolding eip55_from
eip55-step hash i c s t h = elim (Option-cases (eip55_from hash (i + 1) s)) [
  | inl e ↦ absurd (ground arith)
  | inr (u, e) ↦ elim (Bool-cases (is_lower_hex c)) [
    | inr no' ↦ (u, e, inr (no', ground arith))
    | inl yes' ↦ elim (Option-cases (nibble hash i)) [
      | inl e' ↦ absurd (ground arith)
      | inr (n, e') ↦ (u, e, inl (n, e', yes', ground arith))
    ]
  ]
]

-- a character that the loop has left, seen by the loop again
again_cased :
    (hash : Text) (i c n : ℕ) (u : Text)
    → nibble hash i ≡ some n
    → is_lower_hex c ≡ true
    → eip55_from hash (i + 1) u ≡ some u
    → (eip55_from hash i (cased c n ∷ u) ≡ some (cased c n ∷ u))
      × (lower_char (cased c n) ≡ lower_char c)
unfolding eip55_from
again_cased hash i c n u e l r = ground arith

again_same :
    (hash : Text) (i c : ℕ) (u : Text)
    → is_lower_hex c ≡ false
    → eip55_from hash (i + 1) u ≡ some u
    → eip55_from hash i (c ∷ u) ≡ some (c ∷ u)
unfolding eip55_from
again_same hash i c u l r = ground arith

nil_step : (hash : Text) (i : ℕ) (t : Text) → eip55_from hash i [] ≡ some t → t ≡ []
unfolding eip55_from
nil_step hash i t h = ground arith

lower_cons : (c : ℕ) (s : Text) → to_lower (c ∷ s) ≡ lower_char c ∷ to_lower s
unfolding to_lower
lower_cons c s = refl

eip55_from_idem :
    (hash : Text) (i : ℕ) (s t : Text)
    → eip55_from hash i s ≡ some t
    → (eip55_from hash i t ≡ some t) × (to_lower t ≡ to_lower s)
eip55_from_idem hash i [] t h =
    let e : t ≡ [] = nil_step hash i t h in
    (
      subst (λ x. eip55_from hash i x ≡ some x) (sym e)
          (subst (λ x. eip55_from hash i [] ≡ some x) e h),
      ap to_lower e,
    )
eip55_from_idem hash i (c ∷ s) t h =
    let (u, e, kinds) = eip55-step hash i c s t h in
    let (again, same) = eip55_from_idem hash (i + 1) s u e in
    elim kinds [
      | inl (n, e', l, e'') ↦
          let (fix, low) = again_cased hash i c n u e' l again in
          (
            subst (λ x. eip55_from hash i x ≡ some x) (sym e'') fix,
            ap to_lower e''
                ∙ lower_cons (cased c n) u
                ∙ (ap (λ d. d ∷ to_lower u) low ∙ ap (λ x. lower_char c ∷ x) same)
                ∙ sym (lower_cons c s),
          )
      | inr (l, e'') ↦ (
        subst (λ x. eip55_from hash i x ≡ some x) (sym e'') (again_same hash i c u l again),
        ap to_lower e'' ∙ lower_cons c u ∙ ap (λ x. lower_char c ∷ x) same ∙ sym (lower_cons c s),
      )
    ]

all_but_last-snoc : (s : Text) (c : ℕ) → all_but_last (s ++ (c ∷ [])) ≡ s
unfolding all_but_last
all_but_last-snoc [] c = refl
all_but_last-snoc (d ∷ []) c = refl
all_but_last-snoc (d ∷ e ∷ s) c = ap (λ x. d ∷ x) (all_but_last-snoc (e ∷ s) c)

last_char-snoc : (s : Text) (c : ℕ) → last_char (s ++ (c ∷ [])) ≡ c
unfolding last_char
last_char-snoc [] c = refl
last_char-snoc (d ∷ []) c = refl
last_char-snoc (d ∷ e ∷ s) c = last_char-snoc (e ∷ s) c

length-to_lower : (s : Text) → length (to_lower s) ≡ length s
unfolding to_lower
length-to_lower [] = refl
length-to_lower (c ∷ s) = ap suc (length-to_lower s)

-- the case of the hexadecimal text of an address
cased_hex :
    (blake2b : Text → Text) (address : Text)
    → ((s : Text) → length (blake2b s) ≡ 32)
    → length address ≡ 32
    → All IsByte address
    → (t : Text) × (apply_eip55 blake2b (hex_encode address) ≡ some t)
      × (apply_eip55 blake2b t ≡ some t)
      × (hex_decode (to_lower t) ≡ some address)
      × (length t ≡ 64)
unfolding apply_eip55
cased_hex blake2b address hash_size len all =
    let plain : Text = hex_encode address in
    let hash : Text = blake2b (to_lower plain) in
    let size : length plain ≡ 2 * length address = length-hex_encode address in
    let (t, e) = eip55_from-total hash 0 plain (omega (arith, hash_size (to_lower plain))) in
    let (again, low) = eip55_from_idem hash 0 plain t e in
    let low' : to_lower t ≡ plain = low ∙ lower_hex address all in
    (
      t,
      e,
      subst (λ x. eip55_from (blake2b x) 0 t ≡ some t) (sym low) again,
      ap hex_decode low' ∙ hex_decode-encode address all,
      sym (length-to_lower t) ∙ ap length low' ∙ omega arith,
    )

module _ (blake2b : Text → Text) where
  parse_parts-ok :
      (ty : ℕ) (middle address : Text)
      → is_valid_address_type ty ≡ true
      → apply_eip55 blake2b middle ≡ some middle
      → hex_decode (to_lower middle) ≡ some address
      → length address ≡ 32
      → parse_parts blake2b ty middle (calculate_luhn_checksum (to_lower (ty ∷ middle)))
        ≡ ok (address, ty)
  unfolding parse_parts
  parse_parts-ok ty middle address valid case hex len = ground (arith, text_beq_iff middle middle)

  parse_address-parts :
      (ty c : ℕ) (t : Text)
      → length t ≡ 64
      → parse_address blake2b (ty ∷ (t ++ (c ∷ []))) ≡ parse_parts blake2b ty t c
  unfolding parse_address
  parse_address-parts ty c t len =
      let long : ltb (length (t ++ (c ∷ []))) 2 ≡ false =
        ground (arith, length-append t (c ∷ [])) in
      rw (long, all_but_last-snoc t c, last_char-snoc t c) refl

-- The text of an address exists for each of the valid types, and parses to the address and the type,
-- where the address has 32 bytes, each below 256, and every BLAKE2b hash has 32 bytes.
pub parse_address-string_with_type :
    (blake2b : Text → Text) (ty : ℕ) (address : Text)
    → ((s : Text) → length (blake2b s) ≡ 32)
    → is_valid_address_type ty ≡ true
    → length address ≡ 32
    → All IsByte address
    → (s : Text) × (string_with_type blake2b ty address ≡ some s)
      × (parse_address blake2b s ≡ ok (address, ty))
unfolding string_with_type
parse_address-string_with_type blake2b ty address hash_size valid len all =
    let (t, e, again, hex, size) = cased_hex blake2b address hash_size len all in
    (
      with_luhn ty t,
      rw (e, string_with_type) refl,
      parse_address-parts blake2b ty (calculate_luhn_checksum (to_lower (ty ∷ t))) t size
          ∙ parse_parts-ok blake2b ty t address valid again hex len,
    )
