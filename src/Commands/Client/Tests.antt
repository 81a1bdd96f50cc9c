-- ===== src/Commands/Client/Tests.antt =====
-- The client on concrete inputs, with a toy libsodium and a server that accepts and remembers.
use secureorder.Prelude.{arith, List, [], ◌∷◌, ◌++◌, Bool, true, Option, none, ◌≡◌, refl, replicate}
use secureorder.Prelude.{Result, ok}
use secureorder.Prelude.Int.{pos}
use secureorder.Text.{codes}
use secureorder.Error.{Bytes, GoError, message}
use secureorder.Encoding.Decimal.{format_nat, format_int}
use secureorder.Privacy.Toy.{toy, toy_documented, toy_keys, zeros}
use secureorder.Privacy.Memory.{CMemory}
use secureorder.Privacy.Native.{init_privacy_layer, seal_transaction}
use secureorder.Privacy.Keys.{Files, readable, init, load_key_from_file, load_key, read_file}
use secureorder.Privacy.Decrypt.{seal, decrypt_single}
use secureorder.Commands.Client.Submission.{client_main-submitted}
use secureorder.Commands.Client.{ClientFlags, submitted, key_not_loaded, tx_payload, client_main}

abbrev flags : ClientFlags
flags = record {
  addr = codes "h:1";
  pub_key_path = codes "k";
  payload = [];
  side = codes "BUY";
  pair = codes "ETH/USDC";
  amount = codes "1.500000";
  price = codes "3200.000000";
}

abbrev key_file : Files
key_file = record { content = (codes "k", replicate 32 7) ∷ []; reads = λ path. readable }

abbrev connects : Bytes → Option GoError
connects addr = none

abbrev accepts : Bytes → List Bytes → Result GoError Bool × List Bytes
accepts ct seen = (ok true, ct ∷ seen)

abbrev trade : Bytes
trade = codes "TRADE|BUY|ETH/USDC|1.500000|3200.000000|1700"

abbrev no_memory : CMemory
no_memory = record { next = 0; mallocs = []; frees = [] }

buys :
    client_main toy connects accepts flags key_file (pos 1700) 5 []
    ≡ (submitted true trade, (zeros ++ trade) ∷ [])
unfolding client_main tx_payload init init_privacy_layer load_key_from_file load_key read_file seal
    seal_transaction format_nat format_int
buys = refl

key_found : load_key_from_file (codes "k") (pos 32) key_file ≡ ok (replicate 32 7)
unfolding load_key_from_file load_key read_file
key_found = refl

client_main-submitted_example :
    (trade ≡ tx_payload flags (pos 1700))
    × (ct : Bytes) × (accepts ct [] ≡ (ok true, (zeros ++ trade) ∷ []))
    × ((decrypt_single toy ct (replicate 32 7) (replicate 32 8) no_memory).0 ≡ ok trade)
client_main-submitted_example =
    client_main-submitted toy connects accepts flags key_file (pos 1700) toy_documented
      (replicate 32 7) (replicate 32 8) 5 [] ((zeros ++ trade) ∷ []) true trade no_memory
      (omega arith) toy_keys key_found buys

-- Without a key file nothing is sent.
keyless :
    client_main toy connects accepts flags
      (record { content = []; reads = λ path. readable })
      (pos 1700)
      5
      []
    ≡ (key_not_loaded (message (codes "failed to load key: k")), [])
unfolding client_main init init_privacy_layer load_key_from_file load_key read_file
keyless = refl
