-- ===== src/Lib.antt =====
-- The application of HathorNetwork for Ledger devices: it derives keys, shows addresses, and signs
-- transactions that the user has reviewed on the device's screens.
--
-- The program is a loop (`app_main`, src/main.c) that waits for a command, parses it
-- (src/apdu/parser.c), and gives it to a handler (src/apdu/dispatcher.c, src/handler/). Handlers read
-- the command's data through a buffer (src/common/buffer.c), keep what they learn in one global context
-- (src/types.h), answer with a status word (src/io.c), and may leave a screen behind (src/ui/), whose
-- buttons call back. SIGN_TX receives a transaction in chunks: a decoder (src/handler/sign_tx.c) takes
-- tokens, inputs and outputs off a small buffer, and hands each output to the screens before more data
-- is asked for. When all outputs are confirmed and the transaction is approved, the program signs.
--
-- The files, and the code that they model:
--   Prelude: what the other files share; Bits and Lists hold lemmas.
--   Bytes: src/common/read.c and write.c. A byte array is a list of numbers below 256.
--   Buffer: src/common/buffer.c. View and Spell are the abstract view, Refine the refinement;
--     Steps and Unread follow a parser from field to field.
--   Bip32: src/common/bip32.c; Format holds `bip32_path_format`.
--   Result: the outcome of code that may THROW, and the numbers of src/sw.h. `fault` is a write
--     or a read outside of an array, after which C says nothing.
--   Deserialize: src/transaction/deserialize.c; Layout, Accept, RoundTrip and Chunks hold the proofs.
--   Sdk: the functions of the Ledger SDK, which is not part of the repository, as parameters.
--   Hathor: src/hathor.c. Token: src/token/; Wire is a token as it is sent, Signature is about what is
--     signed. Storage: src/storage.c; Signed is about a token with its signature.
--   App: the globals, src/types.h and src/globals.h. Every operation takes and returns them.
--   Io: src/io.c; Event holds `io_event` and `io_exchange_al`. Exec: functions on the globals that may
--     throw.
--   Format: src/common/format.c. Reverse, Decimal, Digits and Amount are about the texts; Signed and
--     Fixed hold `format_i64` and `format_fpu64`.
--   Base58: src/common/base58.c. Value is the number that digits spell; Carry and Encode are about
--     `base58_encode`, Decode holds `base58_decode`, RoundTrip and Characters are about it.
--   SignTx: the decoder of src/handler/sign_tx.c; Change holds the change outputs, ChangeEntries
--     and ChangeInfo are about what is accepted of them, Accept, Progress, Valid and Frame about the
--     decoder's results and state. Stream is about the bytes that it reads: Element and Output about one
--     element, Loop and Chunks about cuts, Encode and RoundTrip about outputs in the wire format.
--   Receiving: a chunk from its arrival at the handler to what the decoder makes of it.
--   Handler: the rest of sign_tx.c. Receive is the data stage, Sign the signature.
--   Display: src/ui/display.c; Render makes the strings of the output screen, Flows holds the steps of
--     the screens with src/ui/menu.c. Sort, Indices, Skip, Last and Past are about the change outputs that
--     are not shown, Address and Shown about what the screen of an output says, Review, Approve and
--     Progress about the end of the review.
--   Command: src/apdu/parser.c; Dispatch is src/apdu/dispatcher.c, Tokens and Keys are the other
--     handlers with their screens, Main is src/main.c and the states of `io_recv_command`, with the
--     place where it waits; its events are commands, presses and the reset EXCEPTION_IO_RESET.
--   Approval: the proofs about who can approve. Signing: the proofs about the digest; Feed is about a
--     chunk in the decode buffer.
--   Tests: concrete runs.
--
-- Loops are structural recursion on a list or a count, with three exceptions on fuel. The loop of
-- `decode_elements` has the number of bytes in its buffer, and one more, as its fuel; each element
-- takes at least one byte. The loops over decimal digits have 20, 19 and 10 rounds, the most digits that
-- a number of 64, of 63 and of 31 bits has. The outer loop of `base58_decode` has as many rounds as the
-- text has characters; each round takes a digit off the number.
--
-- Not modelled: the icons of the screens, the path step of the build option UI_SHOW_PATH, the calls of
-- the SDK that set up USB, Bluetooth and the display, the animation of the screens, and what a failed
-- hash leaves in the context. `itoa` is modelled in base 10 on numbers that are not negative, the only
-- calls it has. A NULL argument does not occur.
pub mod Prelude
pub mod Bytes
pub mod Bip32
pub mod Buffer
pub mod Receiving
pub mod Result
pub mod Deserialize
pub mod Sdk
pub mod Hathor
pub mod Token
pub mod App
pub mod Io
pub mod Format
pub mod Base58
pub mod Display
pub mod Exec
pub mod Handler
pub mod Storage
pub mod Command
pub mod Approval
pub mod SignTx
pub mod Signing
pub mod Tests
