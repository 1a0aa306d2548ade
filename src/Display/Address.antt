-- ===== src/Display/Address.antt =====
-- The address on the screen of an output, read back.
use Prim.{absurd}
use hathor_ledger_app.Prelude.{
  ℕ, ◌+◌, ◌*◌, ◌≤◌, ◌<◌, ◌≡◌, ap, ◌∙◌, some, List, [], ◌∷◌, ◌++◌, All, All-append, All-take,
  Option-cases, take, length, length-append, length-take, map, arith, inl, inr,
}
use hathor_ledger_app.Bytes.{IsByte, Bytes, at}
use hathor_ledger_app.Display.Render.{b58_address_len}
use hathor_ledger_app.Base58.{base58_alphabet, zero_prefix, base58_encode}
use hathor_ledger_app.Base58.Value.{spelled, digits_for}
use hathor_ledger_app.Base58.Encode.{base58_encode-spells}
use hathor_ledger_app.Base58.Decode.{base58_decode, written}
use hathor_ledger_app.Base58.RoundTrip.{base58_decode-encode, length-characters}
use hathor_ledger_app.Sdk.{Sdk}
use hathor_ledger_app.Hathor.{address_from_pubkey_hash, sha256d, p2pkh_version_byte}

spelled-grows : (acc : ℕ) (xs : List ℕ) → acc ≤ spelled 256 acc xs
spelled-grows acc [] = omega arith
spelled-grows acc (x ∷ xs) = omega (arith, spelled-grows (acc * 256 + x) xs)

one_digit : (ds : List ℕ) → All (λ d. d < 58) ds → 58 ≤ spelled 58 0 ds → 2 ≤ length ds
one_digit [] h big = absurd (omega arith)
one_digit (d ∷ []) h big = absurd (omega (arith, h.0))
one_digit (d ∷ e ∷ ds) h big = omega arith

-- The bytes of an address have a text in the room that the screen has, and are read back from it.
address_text :
    (rest : List ℕ)
    → Bytes (p2pkh_version_byte ∷ rest)
    → length rest ≡ 24
    → (text : List ℕ) × (base58_encode (p2pkh_version_byte ∷ rest) b58_address_len ≡ some text)
      × (base58_decode text b58_address_len ≡ written (p2pkh_version_byte ∷ rest))
unfolding zero_prefix
address_text [] all_bytes size = absurd (omega arith)
address_text (y ∷ bytes) all_bytes size =
    let input = p2pkh_version_byte ∷ y ∷ bytes in
    let room : digits_for (length input) ≤ 35 = rw size (omega arith) in
    let (digits, encodes, small, first, number, most) =
      base58_encode-spells input 35 all_bytes (omega arith) room in
    let text = map (at base58_alphabet) digits in
    let big = spelled-grows (p2pkh_version_byte * 256 + y) bytes in
    let least = one_digit digits small (omega arith) in
    let n = length-characters digits in
    (
      text,
      encodes,
      base58_decode-encode input text 35 35 all_bytes (omega arith) room encodes (omega arith)
          (omega arith),
    )

-- The text is the address of the hash: its bytes are the version, the hash and four bytes more.
abbrev pub IsAddressOf : List ℕ → List ℕ → Type 0
IsAddressOf hash text =
    (checksum : List ℕ) × (length checksum ≡ 4)
    × (base58_decode text b58_address_len
        ≡ written (p2pkh_version_byte ∷ (take 20 hash ++ checksum)))

module _ {H : Type 0} (sdk : Sdk H) where
  -- The digest of a byte string is 32 bytes, as SHA-256 gives them.
  abbrev pub Digests : Type 0
  Digests =
      (xs digest : List ℕ) (context : H)
      → Bytes xs
      → sdk.hash_last sdk.sha256_init xs ≡ some (digest, context)
      → Bytes digest × (length digest ≡ 32)

  sha256d-Bytes :
      (xs digest : List ℕ)
      → Digests
      → Bytes xs
      → sha256d sdk xs ≡ some digest
      → Bytes digest × (length digest ≡ 32)
  unfolding sha256d
  sha256d-Bytes xs digest digests bytes e = elim (Option-cases (sdk.hash_last sdk.sha256_init xs)) [
    | inl failed ↦ absurd (ground arith)
    | inr ((first, c), one) ↦ elim (Option-cases (sdk.hash_last sdk.sha256_init first)) [
      | inl failed ↦ absurd (ground arith)
      | inr ((second, d), two) ↦
          let same : digest ≡ second = ground arith in
          rw same (digests first second d (digests xs first c bytes one).0 two)
    ]
  ]

  pub address-IsAddressOf :
      (hash address : List ℕ)
      → Digests
      → Bytes hash
      → length hash ≡ 20
      → address_from_pubkey_hash sdk hash ≡ some address
      → (text : List ℕ) × (base58_encode address b58_address_len ≡ some text)
        × IsAddressOf hash text
  unfolding address_from_pubkey_hash
  address-IsAddressOf hash address digests bytes size e =
      let versioned = p2pkh_version_byte ∷ take 20 hash in
      let all_bytes : Bytes versioned = (omega arith, All-take IsByte 20 hash bytes) in
      elim (Option-cases (sha256d sdk versioned)) [
        | inl failed ↦ absurd (ground arith)
        | inr (digest, hashed) ↦
            let (ds, dl) = sha256d-Bytes versioned digest digests all_bytes hashed in
            let checksum = take 4 digest in
            let l = length-take 4 digest in
            let same : address ≡ versioned ++ checksum = ground arith in
            let (text, encodes, decodes) =
              address_text (take 20 hash ++ checksum)
                (
                  all_bytes.0,
                  All-append IsByte (take 20 hash) checksum all_bytes.1
                      (All-take IsByte 4 digest ds),
                )
                (omega (arith, length-append (take 20 hash) checksum, length-take 20 hash)) in
            (
              text,
              ap (λ a. base58_encode a b58_address_len) same ∙ encodes,
              (checksum, omega arith, decodes),
            )
      ]
