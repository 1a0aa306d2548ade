-- ===== src/Display/Render.antt =====
-- src/ui/display.c: the strings that `prepare_display_output` makes of an output.
use hathor_ledger_app.Prelude.{
  ℕ, ◌+◌, ◌-◌, ◌%◌, bit_and, Option, none, some, List, [], ◌∷◌, ◌++◌, get_or, take, length, ltb,
  ◌==◌, if◌then◌else◌,
}
use hathor_ledger_app.Result.{Result, ok, fault}
use hathor_ledger_app.Deserialize.{TxOutput}
use hathor_ledger_app.Sdk.{Sdk}
use hathor_ledger_app.Hathor.{address_from_pubkey_hash}
use hathor_ledger_app.Token.{TokenData, zero_symbol}
use hathor_ledger_app.App.{TxInfo, ChangeOutputInfo, Screen}
use hathor_ledger_app.Format.{codes, itoa, format_value}
use hathor_ledger_app.Base58.{base58_encode}

-- The characters of a C string before its terminator.
unfoldable pub c_string : List ℕ → List ℕ
c_string [] = []
c_string (c ∷ cs) = let rest = c_string cs in if c == 0 then [] else c ∷ rest

-- One less for each change output behind the current output; a `uint8_t`.
unfoldable pub fake_index : List ChangeOutputInfo → ℕ → ℕ → ℕ
fake_index [] index fake = fake
fake_index (info ∷ infos) index fake =
    fake_index infos index (if ltb info.index index then (fake + 255) % 256 else fake)

abbrev pub g_amount_size : ℕ
g_amount_size = 30

abbrev pub b58_address_len : ℕ
b58_address_len = 35

-- The symbol of an output: HTR, or that of the registry entry that the transaction's token shows.
unfoldable pub symbol_of : {H : Type 0} → TokenData → TxInfo H → TxOutput → List ℕ
symbol_of registry tx output =
    let token_index = bit_and output.token_data 0x7F in
    if token_index == 0
    then codes "HTR"
    else c_string
        ((get_or registry.tokens (get_or tx.tokens (token_index - 1) 0) zero_symbol).symbol)

-- `index + 1` of `total`, change outputs left out.
unfoldable pub index_text : {H : Type 0} → TxInfo H → TxOutput → List ℕ
index_text tx output =
    itoa (fake_index (take tx.change_len tx.change_info) output.index ((output.index + 1) % 256))
    ++ (b'/' ∷ itoa ((tx.outputs_len + 256 - tx.change_len) % 256))

-- `none` is a failure of the hash. A text that does not fit into `g_amount` with its terminator is
-- written past its end.
unfoldable pub render :
    {H : Type 0} → Sdk H → Screen → TokenData → TxInfo H → TxOutput → Result (Option Screen)
unfolding address_from_pubkey_hash base58_encode index_text symbol_of format_value
render sdk screen registry tx output =
    let amount = symbol_of registry tx output ++ (b' ' ∷ format_value output.value) in
    elim (address_from_pubkey_hash sdk output.pubkey_hash) [
      | none ↦ ok none
      | some address ↦
          if ltb g_amount_size (length amount + 1)
          then fault
          else ok (
              some (record screen {
                output_index = index_text tx output;
                address = elim (base58_encode address b58_address_len) [
                  | none ↦ []
                  | some text ↦ text
                ];
                amount = amount;
              }))
    ]
