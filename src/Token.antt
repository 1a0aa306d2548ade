-- ===== src/Token.antt =====
-- src/token/: custom tokens. `token_parser.c` reads a token and finds one in the registry,
-- `signature.c` signs and verifies one with the device's secret.
pub mod Registry
pub mod Signature
pub mod Wire
use hathor_ledger_app.Prelude.{
  ℕ, zero, suc, ◌+◌, ◌*◌, ◌%◌, Bool, true, false, not, ◌&&◌, ◌||◌, Option, none, some, List, [],
  ◌∷◌, ◌++◌, take, drop, length, get_or, replicate, ltb, leb, ◌==◌, if◌then◌else◌,
}
use hathor_ledger_app.Bytes.{at}
use hathor_ledger_app.Buffer.{Buffer, buffer_read_u8, buffer_read_bytes}
use hathor_ledger_app.Deserialize.{mem_eq}
use hathor_ledger_app.Sdk.{Sdk}

abbrev pub token_uid_len : ℕ
token_uid_len = 32

abbrev pub max_token_symbol_len : ℕ
max_token_symbol_len = 5

abbrev pub max_token_name_len : ℕ
max_token_name_len = 30

abbrev pub tx_max_tokens : ℕ
tx_max_tokens = 10

abbrev pub secret_len : ℕ
secret_len = 32

-- `token_t`
pub record Token : Type 0 where
  pub uid : List ℕ
  pub symbol_len : ℕ
  pub symbol : List ℕ
  pub name_len : ℕ
  pub name : List ℕ
  pub version : ℕ

unfoldable pub zero_token : Token
zero_token = record {
  uid = replicate token_uid_len 0;
  symbol_len = 0;
  symbol = replicate max_token_symbol_len 0;
  name_len = 0;
  name = replicate max_token_name_len 0;
  version = 0;
}

-- `token_symbol_t`; `symbol` is a C string in 6 bytes.
pub record TokenSymbol : Type 0 where
  pub uid : List ℕ
  pub symbol : List ℕ

unfoldable pub zero_symbol : TokenSymbol
zero_symbol = record { uid = replicate token_uid_len 0; symbol = replicate 6 0 }

-- `token_data_ctx_t`, the registry `G_token_symbols`.
pub record TokenData : Type 0 where
  pub len : ℕ
  pub tokens : List TokenSymbol

unfoldable pub zero_token_data : TokenData
zero_token_data = record { len = 0; tokens = replicate tx_max_tokens zero_symbol }

-- The loop over the `len` characters that are left.
unfoldable pub is_printable : List ℕ → ℕ → Bool
is_printable str zero = true
is_printable [] (suc len) = true
is_printable (c ∷ str) (suc len) =
    let rest = is_printable str len in
    if c == 0 then true else if ltb c 0x20 || leb 0x80 c then false else rest

-- The `&&` chain of reads, from the symbol's length on.
unfoldable pub parse_token_texts : Buffer → Token → Bool × Token × Buffer
parse_token_texts b t =
    let (ok1, symbol_len, b1) = buffer_read_u8 b in
    let t1 = record t { symbol_len = symbol_len } in
    let (ok2, symbol, b2) = buffer_read_bytes b1 t1.symbol max_token_symbol_len symbol_len in
    let t2 = record t1 { symbol = symbol } in
    let (ok3, name_len, b3) = buffer_read_u8 b2 in
    let t3 = record t2 { name_len = name_len } in
    let (ok4, name, b4) = buffer_read_bytes b3 t3.name max_token_name_len name_len in
    let t4 = record t3 { name = name } in
    if not ok1
    then (false, t1, b1)
    else if not ok2
    then (false, t2, b2)
    else if not ok3
    then (false, t3, b3)
    else if not ok4
    then (false, t4, b4)
    else (true, t4, b4)

-- Returns the result, `*token` and the buffer.
unfoldable pub parse_token : Buffer → Token → Bool × Token × Buffer
parse_token b t =
    let (ok1, version, b1) = buffer_read_u8 b in
    let t1 = record t { version = version } in
    let (ok2, uid, b2) = buffer_read_bytes b1 t1.uid token_uid_len token_uid_len in
    let t2 = record t1 { uid = uid } in
    let (ok3, t3, b3) = parse_token_texts b2 t2 in
    if not ok1
    then (false, t1, b1)
    else if not ok2
    then (false, t2, b2)
    else if not ok3
    then (false, t3, b3)
    else (is_printable t3.symbol t3.symbol_len && is_printable t3.name t3.name_len, t3, b3)

-- The loop of `find_token_registry_index` from index `i` on, over the registry entries in use.
unfoldable pub find_index : List ℕ → ℕ → List TokenSymbol → Option ℕ
unfolding mem_eq
find_index uid i [] = none
find_index uid i (t ∷ ts) =
    let rest = find_index uid (i + 1) ts in
    if mem_eq (take token_uid_len uid) (take token_uid_len t.uid) then some i else rest

-- `none` is the result -1.
unfoldable pub find_token_registry_index : TokenData → List ℕ → Option ℕ
find_token_registry_index registry uid = find_index uid 0 (take registry.len registry.tokens)

unfoldable pub init_token_signature_message : List ℕ → Token → List ℕ
init_token_signature_message secret token =
    take secret_len secret
    ++ (take token_uid_len token.uid
        ++ (take token.symbol_len token.symbol
            ++ (take token.name_len token.name ++ (token.version ∷ []))))

module _ {H : Type 0} (sdk : Sdk H) where
  unfoldable pub sign_token : List ℕ → Token → List ℕ
  sign_token secret token = sdk.hash_sha256 (init_token_signature_message secret token)

  -- 0 is valid, 1 invalid.
  unfoldable pub verify_token_signature : List ℕ → Token → List ℕ → ℕ
  verify_token_signature secret token signature =
      if mem_eq (take 32 signature) (take 32 (sign_token secret token)) then 0 else 1
