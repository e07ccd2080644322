-- ===== src/Registry/Tests.antt =====
-- The repository's own registry tests, and the theorems at concrete inputs.
use base_execution_engine.Base.{Member, none, refl, some, ◌↔◌, ◌≡◌}
use base_execution_engine.Base.Text.{
  ascii_lower, is_whitespace, strip_0x, text, text_eq, to_ascii_lowercase, trim, trim_start,
}
use base_execution_engine.Types.{alien_base, pancake_swap, uniswap_v2, uniswap_v3}
use base_execution_engine.Registry.Tables.{
  AddressMetadata, router, address_book, event_signature_entries, selector_entries,
}
use base_execution_engine.Registry.{
  is_ascii_hexdigit, all_hexdigits, normalize_hex, find_by_key, merge, address_metadata,
  protocol_from_address, exchange_from_address, resolve_transaction, resolve_log, selector_entry,
  protocol_from_selector, exchange_from_selector, event_signature_entry,
  protocol_from_event_signature, exchange_from_event_signature,
}
use base_execution_engine.Registry.Laws.{address_metadata_iff}

resolves_exchange_from_router_address :
    resolve_transaction
      (some (text "0x414BF389"))
      (some (text "0x678Aa4bF4E210cf2166753e054d5b7c31cc7fa86"))
    ≡ record { protocol = some uniswap_v3; exchange = some pancake_swap }
unfolding text resolve_transaction merge protocol_from_address exchange_from_address
    address_metadata find_by_key address_book normalize_hex trim trim_start is_whitespace strip_0x
    to_ascii_lowercase ascii_lower all_hexdigits is_ascii_hexdigit text_eq protocol_from_selector
    exchange_from_selector selector_entry selector_entries
resolves_exchange_from_router_address = refl

prefers_address_over_generic_event_signature :
    resolve_log
      (some (text "0xd78ad95fa46c994b6551d0da85fc275fe613ce37657fb8d5e3d130840159d822"))
      (some (text "0x8c1A3cF8F83074169Fe5d7Ad50B978E1cD6b37c7"))
    ≡ record { protocol = some uniswap_v2; exchange = some alien_base }
unfolding text resolve_log merge protocol_from_address exchange_from_address address_metadata
    find_by_key address_book normalize_hex trim trim_start is_whitespace strip_0x to_ascii_lowercase
    ascii_lower all_hexdigits is_ascii_hexdigit text_eq protocol_from_event_signature
    exchange_from_event_signature event_signature_entry event_signature_entries
prefers_address_over_generic_event_signature = refl

returns_none_for_unknown_address :
    address_metadata (text "0x0000000000000000000000000000000000000001") ≡ none
unfolding text address_metadata find_by_key address_book normalize_hex trim trim_start is_whitespace
    strip_0x to_ascii_lowercase ascii_lower all_hexdigits is_ascii_hexdigit text_eq
returns_none_for_unknown_address = refl

abbrev alien_router : AddressMetadata
alien_router = record {
  address = text "0x8c1a3cf8f83074169fe5d7ad50b978e1cd6b37c7";
  protocol = some uniswap_v2;
  exchange = some alien_base;
  address_type = router;
  label = text "AlienBase Router";
}

address_metadata_iff_example :
    (address_metadata (text " 0x8C1A3cf8f83074169fe5d7ad50b978e1cd6b37c7") ≡ some alien_router) ↔ (
      Member alien_router address_book
      × (normalize_hex (text " 0x8C1A3cf8f83074169fe5d7ad50b978e1cd6b37c7")
          ≡ some alien_router.address))
address_metadata_iff_example =
    address_metadata_iff (text " 0x8C1A3cf8f83074169fe5d7ad50b978e1cd6b37c7") alien_router
