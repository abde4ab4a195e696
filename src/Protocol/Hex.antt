-- ===== src/Protocol/Hex.antt =====
-- src/sync_protocol.rs: `encode_hex`, `decode_hex_exact` and `hex_nibble`. Hexadecimal text is taken as its bytes.
use rusteyes.Common.{
  ℕ, ◌+◌, ◌-◌, ◌*◌, ◌/◌, ◌%◌, ◌<◌, ◌≡◌, refl, subst, true, not, ◌&&◌, Option, none, some, [], ◌∷◌,
  map, All, arith, Bool-cases, inl, inr, if◌then◌else◌, ltb, leb, ◌==◌, ==_iff, length, get_elem?,
  passes, test-passes,
}
use rusteyes.Common.Text.{Text, text}
use rusteyes.Common.Result.{Result, ok, err, ◌>>=◌, ◌>>◌, fail_if, Result-cases}
use rusteyes.Protocol.{Bytes, SyncProtocolError, invalid_hex_length, invalid_hex}

abbrev hex_table : Bytes
hex_table = text "0123456789abcdef"

abbrev or_zero : Option ℕ → ℕ
or_zero none = 0
or_zero (some n) = n

-- `HEX[index]`, at an index below 16.
unfoldable pub hex_digit : ℕ → ℕ
hex_digit index = or_zero (get_elem? hex_table index)

-- `encode_hex`; `byte >> 4` and `byte & 0x0f` of a byte.
unfoldable pub encode_hex : Bytes → Bytes
unfolding hex_digit
encode_hex [] = []
encode_hex (byte ∷ bytes) = hex_digit (byte / 16) ∷ hex_digit (byte % 16) ∷ encode_hex bytes

-- `hex_nibble`.
unfoldable pub hex_nibble : Text → ℕ → Result SyncProtocolError ℕ
hex_nibble field byte =
    if leb b'0' byte && leb byte b'9'
    then ok (byte - b'0')
    else if leb b'a' byte && leb byte b'f'
    then ok (byte - b'a' + 10)
    else if leb b'A' byte && leb byte b'F'
    then ok (byte - b'A' + 10)
    else err (invalid_hex field)

-- The loop over the output bytes, on the input from two bytes at a time. The nibbles are below 16,
-- so `(high << 4) | low` is high * 16 + low.
unfoldable pub decode_pairs : Text → Bytes → Result SyncProtocolError Bytes
unfolding hex_nibble
decode_pairs field [] = ok []
decode_pairs field (h ∷ []) = ok []
decode_pairs field (h ∷ l ∷ rest) = do
  high ← hex_nibble field h
  low ← hex_nibble field l
  output ← decode_pairs field rest
  ok ((high * 16 + low) ∷ output)

-- `decode_hex_exact::<N>`.
unfoldable pub decode_hex_exact : ℕ → Bytes → Text → Result SyncProtocolError Bytes
unfolding decode_pairs
decode_hex_exact n value field = do
  fail_if (not (length value == n * 2)) (invalid_hex_length field (n * 2) (length value))
  decode_pairs field value

abbrev ascii_digit : ℕ → ℕ
ascii_digit n = if ltb n 10 then b'0' + n else b'a' - 10 + n

hex_digit_table : passes (λ n. hex_digit n == ascii_digit n) 16 ≡ true
unfolding passes hex_digit
hex_digit_table = refl

hex_digit-ascii : (n : ℕ) → n < 16 → hex_digit n ≡ ascii_digit n
hex_digit-ascii n h =
    (==_iff _ _).0 (test-passes (λ k. hex_digit k == ascii_digit k) 16 n h hex_digit_table)

-- A digit reads back as its value.
hex_nibble-hex_digit : (field : Text) (n : ℕ) → n < 16 → hex_nibble field (hex_digit n) ≡ ok n
unfolding hex_nibble
hex_nibble-hex_digit field n h = ground (arith, hex_digit-ascii n h)

-- The lower case of an upper-case hexadecimal digit.
abbrev pub to_lower : ℕ → ℕ
to_lower byte = if leb b'A' byte && leb byte b'F' then byte + 32 else byte

-- What reads as a nibble is below 16, and its digit is the byte read, in lower case.
hex_nibble_sound :
    (field : Text) (byte : ℕ) {n : ℕ}
    → hex_nibble field byte ≡ ok n
    → (n < 16) × (ascii_digit n ≡ to_lower byte)
unfolding hex_nibble
hex_nibble_sound field byte e = (ground arith, ground arith)

abbrev pub IsByte : ℕ → Type 0
IsByte b = b < 256

length-encode_hex : (bytes : Bytes) → length (encode_hex bytes) ≡ length bytes * 2
unfolding encode_hex
length-encode_hex [] = omega arith
length-encode_hex (b ∷ bytes) = omega (arith, length-encode_hex bytes)

decode_pairs-nil : (field : Text) → decode_pairs field [] ≡ ok []
unfolding decode_pairs
decode_pairs-nil field = refl

decode_pairs-cons :
    (field : Text) (h l : ℕ) (rest : Bytes)
    → decode_pairs field (h ∷ l ∷ rest) ≡ (
        hex_nibble field h >>= λ high. hex_nibble field l >>= λ low.
        decode_pairs field rest >>= λ output. ok ((high * 16 + low) ∷ output))
unfolding decode_pairs
decode_pairs-cons field h l rest = refl

encode_hex-cons :
    (b : ℕ) (bytes : Bytes)
    → encode_hex (b ∷ bytes) ≡ hex_digit (b / 16) ∷ hex_digit (b % 16) ∷ encode_hex bytes
unfolding encode_hex
encode_hex-cons b bytes = refl

decode_pairs-encode_hex :
    (field : Text) (bytes : Bytes)
    → All IsByte bytes
    → decode_pairs field (encode_hex bytes) ≡ ok bytes
decode_pairs-encode_hex field [] h = unfold decode_pairs encode_hex in refl
decode_pairs-encode_hex field (b ∷ bytes) h =
    rw
      (
        encode_hex-cons b bytes,
        decode_pairs-cons field (hex_digit (b / 16)) (hex_digit (b % 16)) (encode_hex bytes),
        hex_nibble-hex_digit field (b / 16) (omega (arith, h.0)),
        hex_nibble-hex_digit field (b % 16) (omega arith),
        decode_pairs-encode_hex field bytes h.1,
      )
      (let e : b / 16 * 16 + b % 16 ≡ b = omega arith in rw e)

-- Hexadecimal text of `n` bytes decodes to those bytes.
pub decode_hex_exact-encode_hex :
    (bytes : Bytes) (field : Text)
    → All IsByte bytes
    → decode_hex_exact (length bytes) (encode_hex bytes) field ≡ ok bytes
unfolding decode_hex_exact
decode_hex_exact-encode_hex bytes field h = rw (
  length-encode_hex bytes,
  (==_iff (length bytes * 2) (length bytes * 2)).1 refl,
  decode_pairs-encode_hex field bytes h,
)

-- What decoded bytes are: as many as asked for, bytes, and the text in lower case is their encoding.
pub record IsDecoded (n : ℕ) (value bytes : Bytes) : Type 0 where
  pub count : length bytes ≡ n
  pub are_bytes : All IsByte bytes
  pub encoding : encode_hex bytes ≡ map to_lower value

decode_pairs-IsDecoded :
    (n : ℕ) (field : Text) (value : Bytes) {bytes : Bytes}
    → length value ≡ n * 2
    → decode_pairs field value ≡ ok bytes
    → IsDecoded n value bytes
decode_pairs-IsDecoded n field [] {bytes = bytes} size e =
    let made : [] ≡ bytes = ground (arith, decode_pairs-nil field) in
    subst (IsDecoded n []) made
      (record { count = omega arith; are_bytes = tt; encoding = unfold encode_hex in refl })
decode_pairs-IsDecoded n field (h ∷ []) size e = absurd (omega arith)
decode_pairs-IsDecoded n field (h ∷ l ∷ rest) {bytes = bytes} size e =
    elim (Result-cases (hex_nibble field h)) [
      | inr (x, failed) ↦ ground (arith, decode_pairs-cons field h l rest)
      | inl (high, eh) ↦ elim (Result-cases (hex_nibble field l)) [
        | inr (x, failed) ↦ ground (arith, decode_pairs-cons field h l rest)
        | inl (low, el) ↦ elim (Result-cases (decode_pairs field rest)) [
          | inr (x, failed) ↦ ground (arith, decode_pairs-cons field h l rest)
          | inl (output, er) ↦
              let made : (high * 16 + low) ∷ output ≡ bytes =
                ground (arith, decode_pairs-cons field h l rest) in
              let (high_lt, high_digit) = hex_nibble_sound field h eh in
              let (low_lt, low_digit) = hex_nibble_sound field l el in
              let d = decode_pairs-IsDecoded (n - 1) field rest {bytes = output} (omega arith) er in
              subst (IsDecoded n (h ∷ l ∷ rest)) made (record {
                count = omega (arith, d.count);
                are_bytes = (omega arith, d.are_bytes);
                encoding =
                    let hi : (high * 16 + low) / 16 ≡ high = omega arith in
                    let lo : (high * 16 + low) % 16 ≡ low = omega arith in
                    rw (
                      encode_hex-cons (high * 16 + low) output,
                      hi,
                      lo,
                      hex_digit-ascii high high_lt,
                      hex_digit-ascii low low_lt,
                      high_digit,
                      low_digit,
                      d.encoding,
                    );
              })
        ]
      ]
    ]

-- What decodes has the right length, and is the encoding of the bytes that it gives, up to the case
-- of its letters.
pub decode_hex_exact-IsDecoded :
    (n : ℕ) (value : Bytes) (field : Text) (bytes : Bytes)
    → decode_hex_exact n value field ≡ ok bytes
    → IsDecoded n value bytes
unfolding decode_hex_exact
decode_hex_exact-IsDecoded n value field bytes e = elim (Bool-cases (length value == n * 2)) [
  | inr wrong ↦ ground arith
  | inl right ↦
      decode_pairs-IsDecoded n field value ((==_iff (length value) (n * 2)).0 right) (rw right at e)
]
