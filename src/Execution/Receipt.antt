-- ===== src/Execution/Receipt.antt =====
-- `AlloySubmitTransport` of crates/execution/src/submit.rs: the polling of a receipt, its translation and
-- the slow-path simulation. The node's answers and the clock are parameters; the sleep between two polls
-- is left out.
use base_execution_engine.Base.{
  Bool, Bool-cases, List, Option, Result, [], arith, err, false, if◌then◌else◌, inl, inr, leb, none,
  ok, ok_or, refl, some, to_option, ℕ, ◌%◌, ◌++◌, ◌+◌, ◌>>=?◌, ◌>>=◌, ◌^◌, ◌∷◌, ◌≡◌, ◌≤◌, ◌⊎◌,
}
use base_execution_engine.Base.Text.{Text, text}
use base_execution_engine.Types.{Amount, ExecutionAttempt, ExecutionReceipt}
use base_execution_engine.Execution.Payload.{SubmissionPayload}
use base_execution_engine.App.Drive.{EthCallSimulation, passed}

-- What the code reads of the receipt of a node.
pub record TransactionReceipt : Type 0 where
  pub block_number : Option ℕ
  pub status : Bool
  pub gas_used : ℕ
  pub effective_gas_price : Amount

unfoldable pub translate_receipt : Text → TransactionReceipt → ExecutionReceipt
translate_receipt tx_hash_hex receipt = record {
  request_id = [];
  tx_hash = tx_hash_hex;
  block_number = receipt.block_number;
  success = receipt.status;
  gas_used = some (receipt.gas_used % 2 ^ 64);
  effective_gas_price = some receipt.effective_gas_price;
  l1_fee_paid = none;
  revert_reason = if receipt.status then none else some (text "transaction reverted on-chain");
}

-- The answer of the node to a poll, and the time after it.
abbrev pub Poll : Type 0
Poll = Result Text (Option TransactionReceipt) × ℕ

-- The loop over the polls, one after the other: `none` where no poll is left and it still waits.
unfoldable pub poll_loop : Text → ℕ → List Poll → Option (Result Text (Option ExecutionReceipt))
poll_loop tx_hash_hex deadline [] = none
poll_loop tx_hash_hex deadline ((err e, now) ∷ polls) =
    some (err (text "failed to query transaction receipt"))
poll_loop tx_hash_hex deadline ((ok (some receipt), now) ∷ polls) =
    some (ok (some (translate_receipt tx_hash_hex receipt)))
poll_loop tx_hash_hex deadline ((ok none, now) ∷ polls) =
    let rest = poll_loop tx_hash_hex deadline polls in
    if leb deadline now then some (ok none) else rest

module _ {Hash : Type 0} (parse_hash : Text → Option Hash) (polls_of : Hash → List Poll) where
  unfoldable pub poll_receipt : Text → ℕ → ℕ → Option (Result Text (Option ExecutionReceipt))
  poll_receipt tx_hash_hex started timeout = elim (parse_hash tx_hash_hex) [
    | none ↦ some (err (text "invalid tx hash `" ++ (tx_hash_hex ++ text "`")))
    | some hash ↦ poll_loop tx_hash_hex (started + timeout) (polls_of hash)
  ]

  unfoldable pub with_request_id :
      Text → Result Text (Option ExecutionReceipt) → Result Text (Option ExecutionReceipt)
  with_request_id request_id (ok (some rx)) = ok (some (record rx { request_id = request_id }))
  with_request_id request_id answer = answer

  unfoldable pub await_receipt :
      ExecutionAttempt → ℕ → ℕ → Option (Result Text (Option ExecutionReceipt))
  await_receipt attempt started timeout = elim attempt.tx_hash [
    | none ↦ some (err (text "execution attempt has no tx_hash to await"))
    | some tx_hash ↦ poll_receipt tx_hash started timeout >>=? λ answer.
        some (with_request_id attempt.request_id answer)
  ]

-- `TransactionRequest` of a simulation
pub record CallRequest (AlloyAddress : Type 0) : Type 0 where
  pub sender : AlloyAddress
  pub to : AlloyAddress
  pub input : List ℕ
  pub value : Amount
  pub gas_limit : Option ℕ

module _ {AlloyAddress : Type 0} (from_str : Text → Option AlloyAddress) (signer : AlloyAddress)
    (call : CallRequest AlloyAddress → Result Text (List ℕ))
    (estimate_gas : CallRequest AlloyAddress → Result Text ℕ) where
  unfoldable pub call_request :
      SubmissionPayload → ExecutionAttempt → AlloyAddress → CallRequest AlloyAddress
  call_request payload attempt to = record {
    sender = signer;
    to = to;
    input = payload.calldata;
    value = payload.value;
    gas_limit = attempt.gas_limit;
  }

  unfoldable pub simulate : SubmissionPayload → ExecutionAttempt → Result Text EthCallSimulation
  simulate payload attempt =
      ok_or (from_str payload.router_address)
        (text "invalid router address `" ++ (payload.router_address ++ text "`"))
      >>= λ to. elim (call (call_request payload attempt to)) [
        | err e ↦ err (text "eth_call simulation reverted: " ++ e)
        | ok out ↦ ok (passed (to_option (estimate_gas (call_request payload attempt to))))
      ]

-- Some poll ends at the deadline or after it.
abbrev EndsBy : ℕ → List Poll → Type 0
EndsBy deadline [] = ⊥
EndsBy deadline (poll ∷ polls) = (deadline ≤ poll.1) ⊎ EndsBy deadline polls

later :
    (deadline now : ℕ) (polls : List Poll)
    → leb deadline now ≡ false
    → (deadline ≤ now) ⊎ EndsBy deadline polls
    → EndsBy deadline polls
later deadline now polls early (inl late) = ground (arith, early, late)
later deadline now polls early (inr h) = h

-- The loop ends when some poll is at the deadline or past it.
poll_loop-ends :
    (tx_hash : Text) (deadline : ℕ) (polls : List Poll)
    → EndsBy deadline polls
    → (answer : Result Text (Option ExecutionReceipt)) × (poll_loop tx_hash deadline polls
        ≡ some answer)
unfolding poll_loop
poll_loop-ends tx_hash deadline [] h = absurd h
poll_loop-ends tx_hash deadline ((err e, now) ∷ polls) h = (_, refl)
poll_loop-ends tx_hash deadline ((ok (some receipt), now) ∷ polls) h = (_, refl)
poll_loop-ends tx_hash deadline ((ok none, now) ∷ polls) h = elim (Bool-cases (leb deadline now)) [
  | inl late ↦ (ok none, rw late refl)
  | inr early ↦
      let (answer, e) = poll_loop-ends tx_hash deadline polls (later deadline now polls early h) in
      (answer, rw early e)
]
