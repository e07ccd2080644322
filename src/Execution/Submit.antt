-- ===== src/Execution/Submit.antt =====
-- `AlloySubmitTransport::submit_inner` of crates/execution/src/submit.rs. The
-- node's answers and the signer are parameters. The release after a failed broadcast is a task of
-- its own, so a submission returns the nonce that is to be released, and `release` runs later.
use base_execution_engine.Base.Text.{Text, text}
use base_execution_engine.Base.{
  List, Option, Result, ap, err, none, ok, ok_or, refl, some, sym, ℕ, ◌++◌, ◌+◌, ◌>>=◌, ◌>>◌, ◌≡◌,
}
use base_execution_engine.Types.{Amount, ExecutionAttempt}
use mathlib.Core.Path.{subst}
use base_execution_engine.Execution.Gas.{GasPricing, GasCaps, estimate_fees}
use base_execution_engine.Execution.Nonce.{
  NonceState, next_nonce, next_nonce-ok, next_nonce-err, release, release-next_nonce,
}
use base_execution_engine.Execution.Payload.{SubmissionPayload}

-- `TxEip1559`
pub record Transaction (AlloyAddress : Type 0) : Type 0 where
  pub chain_id : ℕ
  pub nonce : ℕ
  pub gas_limit : ℕ
  pub max_fee_per_gas : Amount
  pub max_priority_fee_per_gas : Amount
  pub to : AlloyAddress
  pub value : Amount
  pub input : List ℕ

-- How a submission ends: its result, the manager's state, and the nonce that is to be released.
pub record Submitted : Type 0 where
  pub result : Result Text Text
  pub nonces : NonceState
  pub to_release : Option ℕ

module _ (AlloyAddress Raw : Type 0) (parse_address : Text → Option AlloyAddress)
    (fees : Result Text (Amount × Amount))
    (preflight_call : AlloyAddress → List ℕ → ℕ → Amount → Result Text (Unit {0}))
    (sign : Transaction AlloyAddress → Result Text Raw)
    (send_raw_transaction : Raw → Result Text Text) (chain_id : ℕ) (caps : GasCaps) where
  unfoldable pub transaction :
      SubmissionPayload → AlloyAddress → GasPricing → ℕ → ℕ → Transaction AlloyAddress
  transaction payload to pricing nonce gas_limit = record {
    chain_id = chain_id;
    nonce = nonce;
    gas_limit = gas_limit;
    max_fee_per_gas = pricing.max_fee_per_gas;
    max_priority_fee_per_gas = pricing.max_priority_fee_per_gas;
    to = to;
    value = payload.value;
    input = payload.calldata;
  }

  -- From the reservation to the signature.
  unfoldable pub sign_with_nonce :
      SubmissionPayload → ExecutionAttempt → AlloyAddress → GasPricing → ℕ → Result Text Raw
  sign_with_nonce payload attempt to pricing nonce = do
    gas_limit ←
        ok_or attempt.gas_limit (text "execution attempt is missing gas_limit; refusing to submit")
    preflight_call to payload.calldata gas_limit payload.value
    sign (transaction payload to pricing nonce gas_limit)

  -- The broadcast. Only its failure releases the nonce.
  unfoldable pub broadcast : ℕ → NonceState → Raw → Submitted
  broadcast nonce nonces raw = elim (send_raw_transaction raw) [
    | ok tx_hash ↦ record { result = ok tx_hash; nonces = nonces; to_release = none }
    | err e ↦ record {
      result = err (text "failed to broadcast raw transaction");
      nonces = nonces;
      to_release = some nonce;
    }
  ]

  unfoldable pub with_nonce :
      SubmissionPayload → ExecutionAttempt → AlloyAddress → GasPricing → ℕ → NonceState → Submitted
  with_nonce payload attempt to pricing nonce nonces =
      elim (sign_with_nonce payload attempt to pricing nonce) [
        | err e ↦ record { result = err e; nonces = nonces; to_release = none }
        | ok raw ↦ broadcast nonce nonces raw
      ]

  unfoldable pub reserve_nonce :
      SubmissionPayload
      → ExecutionAttempt
      → AlloyAddress
      → GasPricing
      → Result Text ℕ × NonceState
      → Submitted
  reserve_nonce payload attempt to pricing (err e, nonces) = record {
    result = err (text "failed to reserve nonce for submission");
    nonces = nonces;
    to_release = none;
  }
  reserve_nonce payload attempt to pricing (ok nonce, nonces) =
      with_nonce payload attempt to pricing nonce nonces

  -- The address and the pricing, before the reservation.
  unfoldable pub price : SubmissionPayload → Result Text (AlloyAddress × GasPricing)
  price payload = do
    to ←
        ok_or (parse_address payload.router_address)
          (text "invalid router address `" ++ (payload.router_address ++ text "`"))
    pricing ← elim (estimate_fees fees caps) [
      | ok p ↦ ok p
      | err e ↦ err (text "failed to obtain gas pricing for submission")
    ]
    ok (to, pricing)

  unfoldable pub submit_inner : SubmissionPayload → ExecutionAttempt → NonceState → Submitted
  submit_inner payload attempt nonces = elim (price payload) [
    | err e ↦ record { result = err e; nonces = nonces; to_release = none }
    | ok (to, pricing) ↦ reserve_nonce payload attempt to pricing (next_nonce nonces)
  ]

  -- How a submission leaves the nonces.
  pub data Accounted (payload : SubmissionPayload) (attempt : ExecutionAttempt) (st : NonceState)
      (s : Submitted) : Type 0 where
    unpriced :
        (e : Text)
        → price payload ≡ err e
        → s.result ≡ err e
        → s.nonces ≡ st
        → s.to_release ≡ none
        → Accounted payload attempt st s
    unreserved :
        (to : AlloyAddress) (pricing : GasPricing) (e why : Text)
        → price payload ≡ ok (to, pricing)
        → (next_nonce st).0 ≡ err why
        → s.result ≡ err e
        → s.nonces ≡ st
        → s.to_release ≡ none
        → Accounted payload attempt st s
    sent :
        (to : AlloyAddress) (pricing : GasPricing) (raw : Raw) (hash : Text)
        → price payload ≡ ok (to, pricing)
        → next_nonce st ≡ (ok st.next, s.nonces)
        → sign_with_nonce payload attempt to pricing st.next ≡ ok raw
        → send_raw_transaction raw ≡ ok hash
        → s.result ≡ ok hash
        → s.to_release ≡ none
        → Accounted payload attempt st s
    given_back :
        (to : AlloyAddress) (pricing : GasPricing) (raw : Raw) (e why : Text)
        → price payload ≡ ok (to, pricing)
        → next_nonce st ≡ (ok st.next, s.nonces)
        → sign_with_nonce payload attempt to pricing st.next ≡ ok raw
        → send_raw_transaction raw ≡ err why
        → s.result ≡ err e
        → s.to_release ≡ some st.next
        → release st.next s.nonces ≡ st
        → Accounted payload attempt st s
    leaked :
        (to : AlloyAddress) (pricing : GasPricing) (e : Text)
        → price payload ≡ ok (to, pricing)
        → next_nonce st ≡ (ok st.next, s.nonces)
        → sign_with_nonce payload attempt to pricing st.next ≡ err e
        → s.result ≡ err e
        → s.to_release ≡ none
        → s.nonces ≡ record st { next = st.next + 1 }
        → Accounted payload attempt st s

  broadcast-Accounted :
      (payload : SubmissionPayload) (attempt : ExecutionAttempt) (to : AlloyAddress)
      (pricing : GasPricing) (st nonces : NonceState) (raw : Raw)
      → price payload ≡ ok (to, pricing)
      → next_nonce st ≡ (ok st.next, nonces)
      → sign_with_nonce payload attempt to pricing st.next ≡ ok raw
      → Accounted payload attempt st (broadcast st.next nonces raw)
  unfolding broadcast
  broadcast-Accounted payload attempt to pricing st nonces raw p n s =
      by_answer (send_raw_transaction raw) refl
    where
      by_answer :
          (r : Result Text Text)
          → send_raw_transaction raw ≡ r
          → Accounted payload attempt st (elim r as (λ x. Submitted) [
            | ok tx_hash ↦ record { result = ok tx_hash; nonces = nonces; to_release = none }
            | err w ↦ record {
              result = err (text "failed to broadcast raw transaction");
              nonces = nonces;
              to_release = some st.next;
            }
          ])
      by_answer (ok hash) f = sent to pricing raw hash p n s f refl refl
      by_answer (err w) f =
          given_back to pricing raw _ w p n s f refl refl (release-next_nonce st nonces st.next n)

  -- Every submission ends in one of five ways: the address or the pricing fails, or no nonce is
  -- left to reserve, and the state is as before; the node takes the transaction, signed with the
  -- nonce that was reserved, and no release is asked for; the node refuses the signed transaction,
  -- and the release that is asked for brings the state back; or a step between the reservation and
  -- the broadcast fails, and then the counter has moved on and no release is asked for.
  pub submit_inner-Accounted :
      (payload : SubmissionPayload) (attempt : ExecutionAttempt) (st : NonceState)
      → Accounted payload attempt st (submit_inner payload attempt st)
  unfolding submit_inner reserve_nonce with_nonce
  submit_inner-Accounted payload attempt st = by_price (price payload) refl
    where
      by_signature :
          (to : AlloyAddress) (pricing : GasPricing) (nonces : NonceState) (r : Result Text Raw)
          → sign_with_nonce payload attempt to pricing st.next ≡ r
          → price payload ≡ ok (to, pricing)
          → next_nonce st ≡ (ok st.next, nonces)
          → Accounted payload attempt st (elim r as (λ x. Submitted) [
            | err e ↦ record { result = err e; nonces = nonces; to_release = none }
            | ok raw ↦ broadcast st.next nonces raw
          ])
      by_signature to pricing nonces (ok raw) e p n =
          broadcast-Accounted payload attempt to pricing st nonces raw p n e
      by_signature to pricing nonces (err w) e p n =
          leaked to pricing w p n e refl refl (next_nonce-ok st nonces st.next n).2

      by_nonce :
          (to : AlloyAddress) (pricing : GasPricing) (r : Result Text ℕ) (nonces : NonceState)
          → next_nonce st ≡ (r, nonces)
          → price payload ≡ ok (to, pricing)
          → Accounted payload attempt st (reserve_nonce payload attempt to pricing (r, nonces))
      by_nonce to pricing (err e) nonces n p =
          unreserved to pricing _ e p (ap (λ (r : Result Text ℕ × NonceState). r.0) n) refl
            (next_nonce-err st nonces e n) refl
      by_nonce to pricing (ok k) nonces n p =
          let same = (next_nonce-ok st nonces k n).0 in
          subst
            (λ (m : ℕ).
              Accounted payload attempt st (with_nonce payload attempt to pricing m nonces))
            (sym same)
            (by_signature to pricing nonces (sign_with_nonce payload attempt to pricing st.next)
              refl p (subst (λ (m : ℕ). next_nonce st ≡ (ok m, nonces)) same n))

      by_price :
          (r : Result Text (AlloyAddress × GasPricing))
          → price payload ≡ r
          → Accounted payload attempt st (elim r as (λ x. Submitted) [
            | err e ↦ record { result = err e; nonces = st; to_release = none }
            | ok (to, pricing) ↦ reserve_nonce payload attempt to pricing (next_nonce st)
          ])
      by_price (err e) p = unpriced e p refl refl refl
      by_price (ok (to, pricing)) p = by_nonce to pricing (next_nonce st).0 (next_nonce st).1 refl p
