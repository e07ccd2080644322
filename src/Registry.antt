-- ===== src/Registry.antt =====
-- crates/registry/src: what a known address, an event signature or a selector says of the protocol.
use base_execution_engine.Base.{
  Bool, List, Option, [], if◌then◌else◌, leb, none, not, some, true, ℕ, ◌&&◌, ◌>>=?◌, ◌||◌, ◌∷◌,
}
use base_execution_engine.Base.Text.{Text, is_empty, strip_0x, text_eq, to_ascii_lowercase, trim}
use base_execution_engine.Types.{Exchange, Protocol}
pub mod Tables
pub mod Spelling
pub mod Laws
mod Tests
use Tables.{
  AddressMetadata, EventSignatureEntry, SelectorEntry, address_book, event_signature_entries,
  selector_entries,
}

pub record RegistryMatch : Type 0 where
  pub protocol : Option Protocol
  pub exchange : Option Exchange

-- `Option::or`
abbrev pub first_of {ℓ} : {A : Type ℓ} → Option A → Option A → Option A
first_of none d = d
first_of (some a) d = some a

unfoldable pub merge : RegistryMatch → RegistryMatch → RegistryMatch
merge m fallback = record {
  protocol = first_of m.protocol fallback.protocol;
  exchange = first_of m.exchange fallback.exchange;
}

-- `char::is_ascii_hexdigit`
unfoldable pub is_ascii_hexdigit : ℕ → Bool
is_ascii_hexdigit c =
    (leb b'0' c && leb c b'9') || (leb b'A' c && leb c b'F') || (leb b'a' c && leb c b'f')

unfoldable pub all_hexdigits : Text → Bool
all_hexdigits [] = true
all_hexdigits (c ∷ s) = is_ascii_hexdigit c && all_hexdigits s

unfoldable pub normalize_hex : Text → Option Text
unfolding is_ascii_hexdigit all_hexdigits
normalize_hex value =
    let hex = strip_0x (trim value) in
    if is_empty hex || not (all_hexdigits hex)
    then none
    else some (b'0' ∷ b'x' ∷ to_ascii_lowercase hex)

-- `iter().find` by the key of an entry.
unfoldable pub find_by_key {ℓ} : {A : Type ℓ} → (A → Text) → Text → List A → Option A
find_by_key key k [] = none
find_by_key key k (e ∷ es) = if text_eq (key e) k then some e else find_by_key key k es

unfoldable pub address_metadata : Text → Option AddressMetadata
unfolding find_by_key
address_metadata address =
    normalize_hex address >>=? λ k. find_by_key (λ (e : AddressMetadata). e.address) k address_book

unfoldable pub protocol_from_address : Text → Option Protocol
protocol_from_address address = address_metadata address >>=? λ e. e.protocol

unfoldable pub exchange_from_address : Text → Option Exchange
exchange_from_address address = address_metadata address >>=? λ e. e.exchange

unfoldable pub event_signature_entry : Text → Option EventSignatureEntry
unfolding find_by_key
event_signature_entry signature = normalize_hex signature >>=? λ k.
    find_by_key (λ (e : EventSignatureEntry). e.signature) k event_signature_entries

unfoldable pub protocol_from_event_signature : Text → Option Protocol
protocol_from_event_signature signature = event_signature_entry signature >>=? λ e. e.protocol

unfoldable pub exchange_from_event_signature : Text → Option Exchange
exchange_from_event_signature signature = event_signature_entry signature >>=? λ e. e.exchange

unfoldable pub selector_entry : Text → Option SelectorEntry
unfolding find_by_key
selector_entry selector = normalize_hex selector >>=? λ k.
    find_by_key (λ (e : SelectorEntry). e.selector) k selector_entries

unfoldable pub protocol_from_selector : Text → Option Protocol
protocol_from_selector selector = selector_entry selector >>=? λ e. e.protocol

unfoldable pub exchange_from_selector : Text → Option Exchange
exchange_from_selector selector = selector_entry selector >>=? λ e. e.exchange

unfoldable pub resolve_transaction : Option Text → Option Text → RegistryMatch
unfolding merge
resolve_transaction selector to =
    merge
      (record {
        protocol = to >>=? λ a. protocol_from_address a;
        exchange = to >>=? λ a. exchange_from_address a;
      })
      (record {
        protocol = selector >>=? λ s. protocol_from_selector s;
        exchange = selector >>=? λ s. exchange_from_selector s;
      })

unfoldable pub resolve_log : Option Text → Option Text → RegistryMatch
unfolding merge
resolve_log event_signature address =
    merge
      (record {
        protocol = address >>=? λ a. protocol_from_address a;
        exchange = address >>=? λ a. exchange_from_address a;
      })
      (record {
        protocol = event_signature >>=? λ s. protocol_from_event_signature s;
        exchange = event_signature >>=? λ s. exchange_from_event_signature s;
      })
