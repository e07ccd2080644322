-- ===== src/Ingest/Swap.antt =====
-- The swap that crates/ingest/src/raw/transaction.rs reads out of the calldata of a router call.
use base_execution_engine.Base.{
  Bool, List, Option, [], false, if◌then◌else◌, length, ltb, none, not, some, suc, true, zero, ℕ,
  ◌%◌, ◌-◌, ◌==◌, ◌>>=?◌, ◌||◌, ◌∷◌,
}
use base_execution_engine.Base.Text.{Text}
use base_execution_engine.Base.Words.{fit, u128_max}
use base_execution_engine.Types.{Address, DecodedSwap, Exchange, Protocol}
use base_execution_engine.Ingest.Calls.{
  AlloyAddress, CallAbi, ExactInputCall, ExactEthInputCall, ExactOutputCall, ExactEthOutputCall,
  ExactInputSingleParams, ExactInputParams, ExactOutputSingleParams, ExactOutputParams,
}
pub mod Path
pub mod Shape

unfoldable pub u256_to_u128 : ℕ → Option ℕ
u256_to_u128 value = fit u128_max value

unfoldable pub last {ℓ} : {A : Type ℓ} → List A → Option A
last [] = none
last (x ∷ []) = some x
last (x ∷ y ∷ xs) = last (y ∷ xs)

unfoldable pub take {ℓ} : {A : Type ℓ} → ℕ → List A → List A
take zero xs = []
take (suc n) [] = []
take (suc n) (x ∷ xs) = x ∷ take n xs

unfoldable pub drop {ℓ} : {A : Type ℓ} → ℕ → List A → List A
drop zero xs = xs
drop (suc n) [] = []
drop (suc n) (x ∷ xs) = drop n xs

unfoldable pub exact_input_call : ExactInputCall → Option (ℕ × ℕ × List AlloyAddress × AlloyAddress)
unfolding u256_to_u128
exact_input_call call = u256_to_u128 call.amount_in >>=? λ amount_in.
    u256_to_u128 call.amount_out_min >>=? λ amount_out_min.
    some (amount_in, amount_out_min, call.path, call.to)

unfoldable pub exact_eth_input_call :
    ExactEthInputCall → Option (ℕ × List AlloyAddress × AlloyAddress)
unfolding u256_to_u128
exact_eth_input_call call = u256_to_u128 call.amount_out_min >>=? λ amount_out_min.
    some (amount_out_min, call.path, call.to)

unfoldable pub exact_output_call :
    ExactOutputCall → Option (ℕ × ℕ × List AlloyAddress × AlloyAddress)
unfolding u256_to_u128
exact_output_call call = u256_to_u128 call.amount_out >>=? λ amount_out.
    u256_to_u128 call.amount_in_max >>=? λ amount_in_max.
    some (amount_out, amount_in_max, call.path, call.to)

unfoldable pub exact_eth_output_call :
    ExactEthOutputCall → Option (ℕ × List AlloyAddress × AlloyAddress)
unfolding u256_to_u128
exact_eth_output_call call =
    u256_to_u128 call.amount_out >>=? λ amount_out. some (amount_out, call.path, call.to)

module _ (format_address : AlloyAddress → Text) where
  unfoldable pub decode_v2_path : List AlloyAddress → Option (Address × Address)
  unfolding last
  decode_v2_path [] = none
  decode_v2_path (first ∷ path) =
      last (first ∷ path) >>=? λ end. some (format_address first, format_address end)

  -- At least two addresses of 20 bytes, with a fee of 3 bytes between each and the next.
  unfoldable pub decode_v3_path : List ℕ → Bool → Option (Address × Address)
  unfolding take drop
  decode_v3_path path reverse =
      let first = format_address (take 20 path) in
      let end = format_address (drop (length path - 20) path) in
      if ltb (length path) 43 || not (((length path - 20) % 23) == 0)
      then none
      else if reverse
      then some (end, first)
      else some (first, end)

  module _ (router : Option Address) (protocol : Option Protocol) (exchange : Option Exchange) where
    unfoldable pub decode_v2_exact_input :
        Option (ℕ × ℕ × List AlloyAddress × AlloyAddress) → Option DecodedSwap
    decode_v2_exact_input call = call >>=? λ (amount_in, amount_out_minimum, path, recipient).
        decode_v2_path path >>=? λ (token_in, token_out). some (record {
          pool = none;
          router = router;
          token_in = some token_in;
          token_out = some token_out;
          amount_in = some amount_in;
          amount_out = none;
          amount_in_maximum = none;
          amount_out_minimum = some amount_out_minimum;
          exact_input = some true;
          recipient = some (format_address recipient);
          protocol = protocol;
          exchange = exchange;
        })

    unfoldable pub decode_v2_exact_eth_input :
        Option ℕ → Option (ℕ × List AlloyAddress × AlloyAddress) → Option DecodedSwap
    decode_v2_exact_eth_input tx_value call = call >>=? λ (amount_out_minimum, path, recipient).
        decode_v2_path path >>=? λ (token_in, token_out). some (record {
          pool = none;
          router = router;
          token_in = some token_in;
          token_out = some token_out;
          amount_in = tx_value;
          amount_out = none;
          amount_in_maximum = none;
          amount_out_minimum = some amount_out_minimum;
          exact_input = some true;
          recipient = some (format_address recipient);
          protocol = protocol;
          exchange = exchange;
        })

    unfoldable pub decode_v2_exact_output :
        Option (ℕ × ℕ × List AlloyAddress × AlloyAddress) → Option DecodedSwap
    decode_v2_exact_output call = call >>=? λ (amount_out, amount_in_maximum, path, recipient).
        decode_v2_path path >>=? λ (token_in, token_out). some (record {
          pool = none;
          router = router;
          token_in = some token_in;
          token_out = some token_out;
          amount_in = none;
          amount_out = some amount_out;
          amount_in_maximum = some amount_in_maximum;
          amount_out_minimum = none;
          exact_input = some false;
          recipient = some (format_address recipient);
          protocol = protocol;
          exchange = exchange;
        })

    unfoldable pub decode_v2_exact_eth_output :
        Option ℕ → Option (ℕ × List AlloyAddress × AlloyAddress) → Option DecodedSwap
    decode_v2_exact_eth_output tx_value call = call >>=? λ (amount_out, path, recipient).
        decode_v2_path path >>=? λ (token_in, token_out). some (record {
          pool = none;
          router = router;
          token_in = some token_in;
          token_out = some token_out;
          amount_in = none;
          amount_out = some amount_out;
          amount_in_maximum = tx_value;
          amount_out_minimum = none;
          exact_input = some false;
          recipient = some (format_address recipient);
          protocol = protocol;
          exchange = exchange;
        })

    unfoldable pub decode_v3_exact_input_single : Option ExactInputSingleParams → Option DecodedSwap
    unfolding u256_to_u128
    decode_v3_exact_input_single call = call >>=? λ params.
        u256_to_u128 params.amount_in >>=? λ amount_in.
        u256_to_u128 params.amount_out_minimum >>=? λ amount_out_minimum. some (record {
          pool = none;
          router = router;
          token_in = some (format_address params.token_in);
          token_out = some (format_address params.token_out);
          amount_in = some amount_in;
          amount_out = none;
          amount_in_maximum = none;
          amount_out_minimum = some amount_out_minimum;
          exact_input = some true;
          recipient = some (format_address params.recipient);
          protocol = protocol;
          exchange = exchange;
        })

    unfoldable pub decode_v3_exact_input : Option ExactInputParams → Option DecodedSwap
    unfolding u256_to_u128
    decode_v3_exact_input call = call >>=? λ params.
        decode_v3_path params.path false >>=? λ (token_in, token_out).
        u256_to_u128 params.amount_in >>=? λ amount_in.
        u256_to_u128 params.amount_out_minimum >>=? λ amount_out_minimum. some (record {
          pool = none;
          router = router;
          token_in = some token_in;
          token_out = some token_out;
          amount_in = some amount_in;
          amount_out = none;
          amount_in_maximum = none;
          amount_out_minimum = some amount_out_minimum;
          exact_input = some true;
          recipient = some (format_address params.recipient);
          protocol = protocol;
          exchange = exchange;
        })

    unfoldable pub decode_v3_exact_output_single :
        Option ExactOutputSingleParams → Option DecodedSwap
    unfolding u256_to_u128
    decode_v3_exact_output_single call = call >>=? λ params.
        u256_to_u128 params.amount_out >>=? λ amount_out.
        u256_to_u128 params.amount_in_maximum >>=? λ amount_in_maximum. some (record {
          pool = none;
          router = router;
          token_in = some (format_address params.token_in);
          token_out = some (format_address params.token_out);
          amount_in = none;
          amount_out = some amount_out;
          amount_in_maximum = some amount_in_maximum;
          amount_out_minimum = none;
          exact_input = some false;
          recipient = some (format_address params.recipient);
          protocol = protocol;
          exchange = exchange;
        })

    unfoldable pub decode_v3_exact_output : Option ExactOutputParams → Option DecodedSwap
    unfolding u256_to_u128
    decode_v3_exact_output call = call >>=? λ params.
        decode_v3_path params.path true >>=? λ (token_in, token_out).
        u256_to_u128 params.amount_out >>=? λ amount_out.
        u256_to_u128 params.amount_in_maximum >>=? λ amount_in_maximum. some (record {
          pool = none;
          router = router;
          token_in = some token_in;
          token_out = some token_out;
          amount_in = none;
          amount_out = some amount_out;
          amount_in_maximum = some amount_in_maximum;
          amount_out_minimum = none;
          exact_input = some false;
          recipient = some (format_address params.recipient);
          protocol = protocol;
          exchange = exchange;
        })
