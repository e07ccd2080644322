-- ===== src/Discovery/Tests.antt =====
-- Runs of the scan of the factories' logs and of the discovery of pools.
use base_execution_engine.Base.{
  Option, List, Result, [], arith, if◌then◌else◌, none, ok, refl, some, suc, ◌-◌, ◌==◌, ◌∷◌, ◌≡◌,
}
use base_execution_engine.Base.Text.{trim, trim_start, is_whitespace, Text, text}
use base_execution_engine.Types.{BlockNumber, uniswap_v2}
use base_execution_engine.Discovery.Factory.{FactoryConfig, v2_factory, log_chunk_size_or_default}
use base_execution_engine.Discovery.Reader.{
  PairCreated, DiscoveredV2Pool, decode_all, scan_chunks, chunk_end, decode_v2_pair_created,
  fetch_v2_pair_created,
}
use base_execution_engine.Discovery.Chunks.{logs_in, fetch_v2_pair_created-logs_in}

abbrev factory : FactoryConfig
factory = record {
  address = text "0xfactory";
  kind = v2_factory;
  protocol = uniswap_v2;
  exchange = none;
  deployment_block = 1;
  default_v2_fee_bps = some 25;
  log_chunk_size = some 2;
}

abbrev pair : PairCreated Text
pair = record { token0 = text "0xa"; token1 = text "0xb"; pair = text "0xp" }

abbrev from_str : Text → Option Text
from_str = some

abbrev format_address : Text → Text
format_address address = address

-- One pair, created in block 4.
abbrev pairs_at : Text → BlockNumber → List (PairCreated Text)
pairs_at address number = if number == 4 then pair ∷ [] else []

abbrev get_pairs : Text → BlockNumber → BlockNumber → Result Text (List (PairCreated Text))
get_pairs address first last = ok (logs_in (pairs_at address) first (suc last - first))

abbrev found : DiscoveredV2Pool
found = record {
  address = text "0xp";
  token0 = text "0xa";
  token1 = text "0xb";
  reserve0 = 0;
  reserve1 = 0;
  fee_bps = 25;
}

fetch_in_chunks :
    fetch_v2_pair_created from_str format_address get_pairs some factory 1 5
    ≡ some (ok (found ∷ []))
unfolding fetch_v2_pair_created scan_chunks chunk_end decode_all decode_v2_pair_created
    log_chunk_size_or_default trim trim_start is_whitespace text
fetch_in_chunks = refl

fetch_v2_pair_created-logs_in_example :
    fetch_v2_pair_created from_str format_address get_pairs some factory 1 5
    ≡ some (
        ok (
          decode_all
            (decode_v2_pair_created from_str format_address get_pairs some factory)
            (logs_in (pairs_at (text "0xfactory")) 1 5)))
unfolding log_chunk_size_or_default trim trim_start is_whitespace text
fetch_v2_pair_created-logs_in_example =
    fetch_v2_pair_created-logs_in from_str format_address get_pairs some pairs_at factory
      (text "0xfactory") 1 5 refl (λ first last h. refl) (omega arith)
