-- ===== src/Execution/Payload.antt =====
-- `build_route_step` and `build_submission_payload_at` of crates/execution/src/lib.rs. Parameters: the
-- types and parsers of the package alloy-primitives, and the ABI encoder that `sol!` generates.
use base_execution_engine.Base.Text.{Text, show_uint, text, text_eq}
use base_execution_engine.Base.Words.{checked_add, u64_max}
use base_execution_engine.Base.{
  >>=-eq-ok, Bool, List, Option, Result, [], arith, err, fail_if, fail_if_ok, false, fit_ok,
  if◌then◌else◌, ltb, ok, ok-injective, ok_or, ok_or_ok, refl, some, suc, true, zero, ℕ, ◌&&◌, ◌++◌,
  ◌+◌, ◌==◌, ◌>>=◌, ◌>>◌, ◌||◌, ◌∷◌, ◌≡◌, ◌≤◌,
}
use base_execution_engine.Types.{Amount, ExecutionRequest, ExecutionStep}
use mathlib.Core.Path.{subst}
use base_execution_engine.Execution.{ExecutionConfig}

pub record RouterRouteStep (AlloyAddress : Type 0) : Type 0 where
  pub venue_kind : ℕ
  pub target : AlloyAddress
  pub token_in : AlloyAddress
  pub token_out : AlloyAddress
  pub fee : ℕ
  pub min_amount_out : ℕ
  pub extra_data : List ℕ

pub record RouterExecutionPlan (AlloyAddress Bytes32 : Type 0) : Type 0 where
  pub settlement_token : AlloyAddress
  pub funding_amount : ℕ
  pub min_repay_amount : ℕ
  pub min_surplus : ℕ
  pub deadline : ℕ
  pub steps : List (RouterRouteStep AlloyAddress)
  pub risk_hash : Bytes32

pub record SubmissionPayload : Type 0 where
  pub router_address : Text
  pub calldata : List ℕ
  pub value : Amount

-- `RouterVenueKind`, by its numeric value.
abbrev pub uniswap_v2 : ℕ
uniswap_v2 = 1

abbrev pub uniswap_v3_single : ℕ
uniswap_v3_single = 2

abbrev pub aerodrome_v2 : ℕ
aerodrome_v2 = 3

-- The arms of the match on the calldata hint.
pub data Hint : Type 0 where
  v3_single v2_input volatile stable : Hint
  unsupported : Text → Hint

unfoldable pub read_hint : Text → Hint
read_hint hint =
    if text_eq hint (text "uniswap_v3_exact_input_single")
      || text_eq hint (text "v3_exact_input_single")
    then v3_single
    else if text_eq hint (text "v2_exact_input") || text_eq hint (text "uniswap_v2_exact_input")
    then v2_input
    else if text_eq hint (text "aerodrome_v2_volatile")
    then volatile
    else if text_eq hint (text "aerodrome_v2_stable")
    then stable
    else unsupported hint

-- `value.starts_with("0x")`
unfoldable pub starts_with_0x : Text → Bool
starts_with_0x (c ∷ d ∷ s) = (c == b'0') && (d == b'x')
starts_with_0x (c ∷ []) = false
starts_with_0x [] = false

unfoldable pub zeros : ℕ → List ℕ
zeros zero = []
zeros (suc n) = 0 ∷ zeros n

abbrev pub is_stable : Hint → Bool
is_stable stable = true
is_stable _ = false

module _ (AlloyAddress Bytes32 : Type 0) (parse_address : Text → Option AlloyAddress)
    (show_address : AlloyAddress → Text) (address_bytes : AlloyAddress → List ℕ)
    (parse_bytes32 : Text → Option Bytes32)
    (abi_encode : Bool → RouterExecutionPlan AlloyAddress Bytes32 → List ℕ) where
  abbrev address_of : Text → Text → Result Text AlloyAddress
  address_of value context =
      ok_or (parse_address value)
        (text "failed to parse " ++ (context ++ (text " `" ++ (value ++ text "` as an address"))))

  -- The arms of the match; `step_error` prefixes a message with the step's index.
  unfoldable pub route_arm :
      Hint
      → ExecutionStep
      → (Text → Text)
      → AlloyAddress
      → AlloyAddress
      → AlloyAddress
      → Result Text (RouterRouteStep AlloyAddress)
  route_arm v3_single step step_error target token_in token_out = do
    fee ← ok_or step.pool_fee (step_error (text " v3 swap is missing pool_fee"))
    fail_if (ltb 1000000 fee)
        (step_error (text " has an invalid v3 pool fee `" ++ (show_uint fee ++ text "`")))
    ok (record {
      venue_kind = uniswap_v3_single;
      target = target;
      token_in = token_in;
      token_out = token_out;
      fee = fee;
      min_amount_out = step.min_amount_out;
      extra_data = [];
    })
  route_arm v2_input step step_error target token_in token_out = ok (record {
    venue_kind = uniswap_v2;
    target = target;
    token_in = token_in;
    token_out = token_out;
    fee = 0;
    min_amount_out = step.min_amount_out;
    extra_data = [];
  })
  route_arm (unsupported other) step step_error target token_in token_out =
      err (step_error (text " uses unsupported calldata hint `" ++ (other ++ text "`")))
  route_arm hint step step_error target token_in token_out = do
    factory_str ←
        ok_or step.aux_address
          (step_error (text " aerodrome swap is missing aux_address (factory)"))
    factory ← address_of factory_str (text "execution step aerodrome factory")
    ok (record {
      venue_kind = aerodrome_v2;
      target = target;
      token_in = token_in;
      token_out = token_out;
      fee = 0;
      min_amount_out = step.min_amount_out;
      extra_data =
          zeros 31 ++ ((if is_stable hint then 1 else 0) ∷ (zeros 12 ++ address_bytes factory));
    })

  unfoldable pub build_route_step : ExecutionStep → ℕ → Result Text (RouterRouteStep AlloyAddress)
  build_route_step step index = do
    hint ←
        ok_or step.calldata_hint
          (text "execution step " ++ (show_uint index ++ text " is missing calldata_hint"))
    target ← address_of step.target (text "execution step target")
    token_in ← address_of step.token_in (text "execution step token_in")
    token_out ← address_of step.token_out (text "execution step token_out")
    route_arm (read_hint hint) step
        (λ message. text "execution step " ++ (show_uint index ++ message)) target token_in
        token_out

  -- The `collect` over the steps, from an index on.
  unfoldable pub build_steps :
      List ExecutionStep → ℕ → Result Text (List (RouterRouteStep AlloyAddress))
  build_steps [] index = ok []
  build_steps (step ∷ steps) index =
      build_route_step step index
      >>= (λ first. build_steps steps (index + 1) >>= (λ rest. ok (first ∷ rest)))

  unfoldable pub parse_risk_hash : Text → Result Text Bytes32
  parse_risk_hash value =
      ok_or (parse_bytes32 (if starts_with_0x value then value else text "0x" ++ value))
        (text "failed to parse risk hash `" ++ (value ++ text "` as bytes32"))

  unfoldable pub build_submission_payload_at :
      ExecutionConfig → ExecutionRequest → ℕ → Result Text SubmissionPayload
  build_submission_payload_at config request now_secs = do
    router_text ←
        ok_or config.router_address (text "EXECUTION_ROUTER_ADDRESS is required to build calldata")
    router ← address_of router_text (text "EXECUTION_ROUTER_ADDRESS")
    asset ← ok_or request.flashloan_asset (text "execution request is missing flashloan_asset")
    settlement_token ← address_of asset (text "execution request flashloan_asset")
    risk_hash ← parse_risk_hash request.risk_hash
    funding_amount ←
        ok_or request.flashloan_amount (text "execution request is missing flashloan_amount")
    steps ← build_steps request.steps 0
    deadline ←
        ok_or (checked_add u64_max now_secs config.plan_deadline_secs)
          (text "plan deadline overflow")
    ok (record {
      router_address = show_address router;
      calldata = abi_encode config.use_flashloan (record {
        settlement_token = settlement_token;
        funding_amount = funding_amount;
        min_repay_amount = request.min_repay;
        min_surplus = request.min_surplus;
        deadline = deadline;
        steps = steps;
        risk_hash = risk_hash;
      });
      value = 0;
    })

  -- The same, at the time that the clock answers.
  unfoldable pub build_submission_payload :
      ExecutionConfig → ExecutionRequest → Result Text ℕ → Result Text SubmissionPayload
  build_submission_payload config request clock = do
    now_secs ← clock
    build_submission_payload_at config request now_secs

  -- What an encoded step says of the step of the request.
  pub record Encodes (step : ExecutionStep) (r : RouterRouteStep AlloyAddress) : Type 0 where
    pub target : parse_address step.target ≡ some r.target
    pub token_in : parse_address step.token_in ≡ some r.token_in
    pub token_out : parse_address step.token_out ≡ some r.token_out
    pub floor : r.min_amount_out ≡ step.min_amount_out
    pub fee : r.fee ≤ 1000000

  route_arm-Encodes :
      (hint : Hint) (step : ExecutionStep) (message : Text → Text)
      (target token_in token_out : AlloyAddress) (r : RouterRouteStep AlloyAddress)
      → parse_address step.target ≡ some target
      → parse_address step.token_in ≡ some token_in
      → parse_address step.token_out ≡ some token_out
      → route_arm hint step message target token_in token_out ≡ ok r
      → Encodes step r
  unfolding route_arm
  route_arm-Encodes v3_single step message target token_in token_out r e1 e2 e3 h =
      let (fee, e4, h4) = ok_or_ok step.pool_fee _ _ h in
      let (e5, h5) = fail_if_ok (ltb 1000000 fee) _ _ h4 in
      subst (Encodes step) (ok-injective h5)
        (record { target = e1; token_in = e2; token_out = e3; floor = refl; fee = ground arith })
  route_arm-Encodes v2_input step message target token_in token_out r e1 e2 e3 h =
      subst (Encodes step) (ok-injective h)
        (record { target = e1; token_in = e2; token_out = e3; floor = refl; fee = omega arith })
  route_arm-Encodes (unsupported other) step message target token_in token_out r e1 e2 e3 h = cc
  route_arm-Encodes volatile step message target token_in token_out r e1 e2 e3 h =
      let (aux, e4, h4) = ok_or_ok step.aux_address _ _ h in
      let (factory, e5, h5) = ok_or_ok (parse_address aux) _ _ h4 in
      subst (Encodes step) (ok-injective h5)
        (record { target = e1; token_in = e2; token_out = e3; floor = refl; fee = omega arith })
  route_arm-Encodes stable step message target token_in token_out r e1 e2 e3 h =
      let (aux, e4, h4) = ok_or_ok step.aux_address _ _ h in
      let (factory, e5, h5) = ok_or_ok (parse_address aux) _ _ h4 in
      subst (Encodes step) (ok-injective h5)
        (record { target = e1; token_in = e2; token_out = e3; floor = refl; fee = omega arith })

  build_route_step-Encodes :
      (step : ExecutionStep) (index : ℕ) (r : RouterRouteStep AlloyAddress)
      → build_route_step step index ≡ ok r
      → Encodes step r
  unfolding build_route_step
  build_route_step-Encodes step index r h =
      let (hint, e0, h0) = ok_or_ok step.calldata_hint _ _ h in
      let (target, e1, h1) = ok_or_ok (parse_address step.target) _ _ h0 in
      let (token_in, e2, h2) = ok_or_ok (parse_address step.token_in) _ _ h1 in
      let (token_out, e3, h3) = ok_or_ok (parse_address step.token_out) _ _ h2 in
      route_arm-Encodes (read_hint hint) step _ target token_in token_out r e1 e2 e3 h3

  abbrev pub EncodesAll : List ExecutionStep → List (RouterRouteStep AlloyAddress) → Type 0
  EncodesAll [] [] = Unit
  EncodesAll [] (r ∷ rs) = ⊥
  EncodesAll (step ∷ steps) [] = ⊥
  EncodesAll (step ∷ steps) (r ∷ rs) = Encodes step r × EncodesAll steps rs

  build_steps-EncodesAll :
      (steps : List ExecutionStep) (index : ℕ) (rs : List (RouterRouteStep AlloyAddress))
      → build_steps steps index ≡ ok rs
      → EncodesAll steps rs
  unfolding build_steps
  build_steps-EncodesAll [] index rs h = subst (EncodesAll []) (ok-injective h) tt
  build_steps-EncodesAll (step ∷ steps) index rs h =
      let (first, e1, h1) = >>=-eq-ok (build_route_step step index) _ h in
      let (rest, e2, h2) = >>=-eq-ok (build_steps steps (index + 1)) _ h1 in
      subst (EncodesAll (step ∷ steps)) (ok-injective h2) (
        build_route_step-Encodes step index first e1,
        build_steps-EncodesAll steps (index + 1) rest e2,
      )

  -- What a payload carries of the request.
  pub record Carries (config : ExecutionConfig) (request : ExecutionRequest) (now : ℕ)
      (p : SubmissionPayload) : Type 0 where
    pub plan : RouterExecutionPlan AlloyAddress Bytes32
    pub calldata : p.calldata ≡ abi_encode config.use_flashloan plan
    pub no_value : p.value ≡ 0
    pub asset :
        (a : Text) × (request.flashloan_asset ≡ some a)
        × (parse_address a ≡ some plan.settlement_token)
    pub funding : request.flashloan_amount ≡ some plan.funding_amount
    pub repay : plan.min_repay_amount ≡ request.min_repay
    pub surplus : plan.min_surplus ≡ request.min_surplus
    pub deadline : plan.deadline ≡ now + config.plan_deadline_secs
    pub deadline_fits : plan.deadline ≤ u64_max
    pub steps : EncodesAll request.steps plan.steps

  -- A payload that is built encodes a plan that says of the request what it says: the borrowed
  -- asset and amount, the repayment and the surplus, each step in order with its addresses and
  -- output floor, a fee of at most a million, and a deadline that fits 64 bits; it sends no value.
  pub build_submission_payload-Carries :
      (config : ExecutionConfig) (request : ExecutionRequest) (now : ℕ) (p : SubmissionPayload)
      → build_submission_payload_at config request now ≡ ok p
      → Carries config request now p
  unfolding build_submission_payload_at
  build_submission_payload-Carries config request now p h =
      let (router_text, e0, h0) = ok_or_ok config.router_address _ _ h in
      let (router, e1, h1) = ok_or_ok (parse_address router_text) _ _ h0 in
      let (asset, e2, h2) = ok_or_ok request.flashloan_asset _ _ h1 in
      let (token, e3, h3) = ok_or_ok (parse_address asset) _ _ h2 in
      let (hash, e4, h4) = >>=-eq-ok (parse_risk_hash request.risk_hash) _ h3 in
      let (funding, e5, h5) = ok_or_ok request.flashloan_amount _ _ h4 in
      let (steps, e6, h6) = >>=-eq-ok (build_steps request.steps 0) _ h5 in
      let (fits, h7) = fit_ok u64_max (now + config.plan_deadline_secs) _ _ h6 in
      subst (Carries config request now) (ok-injective h7) (record {
        plan = record {
          settlement_token = token;
          funding_amount = funding;
          min_repay_amount = request.min_repay;
          min_surplus = request.min_surplus;
          deadline = now + config.plan_deadline_secs;
          steps = steps;
          risk_hash = hash;
        };
        calldata = refl;
        no_value = refl;
        asset = (asset, e2, e3);
        funding = e5;
        repay = refl;
        surplus = refl;
        deadline = refl;
        deadline_fits = fits;
        steps = build_steps-EncodesAll request.steps 0 steps e6;
      })
