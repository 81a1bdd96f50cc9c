-- ===== src/Commands/LiveDemo/Trades.antt =====
-- The random trades of cmd/live-demo/main.go, and the list of the recent ones.
use secureorder.Prelude.{ℕ, zero, suc, ◌+◌, List, [], ◌∷◌, ◌++◌, ltb, if◌then◌else◌, length, drop}
use secureorder.Prelude.Int.{ℤ}
use secureorder.Text.{codes}
use secureorder.Error.{Bytes}
use secureorder.Encoding.Decimal.{format_nat, format_int}
use secureorder.Commands.Background.{two_digits}

-- The values of rand.Intn(20), rand.Intn(2), rand.Intn(3), rand.Intn(100) and rand.Intn(5000).
pub record Draws : Type 0 where
  pub client : ℕ
  pub trade : ℕ
  pub pair : ℕ
  pub amount : ℕ
  pub price : ℕ

pub trade_type : ℕ → Bytes
trade_type zero = codes "BUY"
trade_type (suc n) = codes "SELL"

pub pair_of : ℕ → Bytes
pair_of zero = codes "ETH/USDC"
pair_of (suc zero) = codes "BTC/USDC"
pair_of (suc (suc n)) = codes "SOL/USDC"

-- `%.2f` of a whole number.
pub two_decimals : ℕ → Bytes
two_decimals n = format_nat n ++ codes ".00"

unfoldable pub payload : Draws → ℤ → Bytes
unfolding trade_type pair_of two_decimals
payload d nanos =
    codes "TRADE|"
    ++ two_digits (d.client + 1)
    ++ codes "|"
    ++ trade_type d.trade
    ++ codes "|"
    ++ pair_of d.pair
    ++ codes "|"
    ++ two_decimals (d.amount + 1)
    ++ codes "|"
    ++ two_decimals (1000 + d.price)
    ++ codes "|"
    ++ format_int nanos

-- `txInfo`
unfoldable pub tx_info : Draws → Bytes
unfolding trade_type pair_of two_decimals
tx_info d =
    codes "Client "
    ++ two_digits (d.client + 1)
    ++ codes " | "
    ++ trade_type d.trade
    ++ codes " "
    ++ pair_of d.pair
    ++ codes " | "
    ++ two_decimals (d.amount + 1)
    ++ codes " @ "
    ++ format_nat (1000 + d.price)

-- The recent submissions: at most fifteen are kept.
unfoldable pub push_recent : List Bytes → Bytes → List Bytes
push_recent infos info =
    let longer = infos ++ info ∷ [] in if ltb 15 (length longer) then drop 1 longer else longer
