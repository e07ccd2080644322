-- ===== src/Registry/Tables.antt =====
-- The tables of crates/registry: known contracts, event signatures and calldata selectors.
use base_execution_engine.Base.{List, Option, [], none, some, ◌∷◌}
use base_execution_engine.Base.Text.{Text, text}
use base_execution_engine.Types.{
  Exchange, Protocol, aerodrome, alien_base, base_swap, pancake_swap, uniswap_v2, uniswap_v3,
  uniswap_v4, virtuals,
}

pub data AddressType : Type 0 where
  router factory position_manager pool_manager bonding token : AddressType

pub record AddressMetadata : Type 0 where
  pub address : Text
  pub protocol : Option Protocol
  pub exchange : Option Exchange
  pub address_type : AddressType
  pub label : Text

pub record EventSignatureEntry : Type 0 where
  pub signature : Text
  pub protocol : Option Protocol
  pub exchange : Option Exchange

pub record SelectorEntry : Type 0 where
  pub selector : Text
  pub protocol : Option Protocol
  pub exchange : Option Exchange

unfoldable pub address_book : List AddressMetadata
unfolding text
address_book =
    (record {
      address = text "0x4752ba5dbc23f44d87826276bf6fd6b1c372ad24";
      protocol = some uniswap_v2;
      exchange = none;
      address_type = router;
      label = text "Uniswap V2 Router02";
    })
    ∷ (record {
      address = text "0x2626664c2603336e57b271c5c0b26f421741e481";
      protocol = some uniswap_v3;
      exchange = none;
      address_type = router;
      label = text "Uniswap V3 SwapRouter02";
    })
    ∷ (record {
      address = text "0x198ef79f1f515f02dfe9e3115ed9fc07183f02fc";
      protocol = some uniswap_v4;
      exchange = none;
      address_type = router;
      label = text "Uniswap Universal Router 2";
    })
    ∷ (record {
      address = text "0x33128a8fc17869897dce68ed026d694621f6fdfd";
      protocol = some uniswap_v3;
      exchange = none;
      address_type = factory;
      label = text "Uniswap V3 Factory";
    })
    ∷ (record {
      address = text "0xfda619b6d20975be80a10332cd39b9a4b0faa8bb";
      protocol = some uniswap_v2;
      exchange = some base_swap;
      address_type = factory;
      label = text "BaseSwap Factory";
    })
    ∷ (record {
      address = text "0x327df1e6de05895d2ab08513aadd9313fe505d86";
      protocol = some uniswap_v2;
      exchange = some base_swap;
      address_type = router;
      label = text "BaseSwap Router";
    })
    ∷ (record {
      address = text "0x3e84d913803b02a4a7f027165e8ca42c14c0fde7";
      protocol = some uniswap_v2;
      exchange = some alien_base;
      address_type = factory;
      label = text "AlienBase Factory";
    })
    ∷ (record {
      address = text "0x8c1a3cf8f83074169fe5d7ad50b978e1cd6b37c7";
      protocol = some uniswap_v2;
      exchange = some alien_base;
      address_type = router;
      label = text "AlienBase Router";
    })
    ∷ (record {
      address = text "0x0fd83557b2be93617c9c1c1b6fd549401c74558c";
      protocol = some uniswap_v3;
      exchange = some alien_base;
      address_type = factory;
      label = text "AlienBase Uniswap V3 Factory";
    })
    ∷ (record {
      address = text "0xb20c411fc84fbb27e78608c24d0056d974ea9411";
      protocol = some uniswap_v3;
      exchange = some alien_base;
      address_type = router;
      label = text "AlienBase V3 Smart Router";
    })
    ∷ (record {
      address = text "0xcf77a3ba9a5ca399b7c97c74d54e5b1beb874e43";
      protocol = some aerodrome;
      exchange = some aerodrome;
      address_type = router;
      label = text "Aerodrome Router";
    })
    ∷ (record {
      address = text "0x6cb442acf35158d5eda88fe602221b67b400be3e";
      protocol = some aerodrome;
      exchange = some aerodrome;
      address_type = router;
      label = text "Aerodrome Universal Router";
    })
    ∷ (record {
      address = text "0x678aa4bf4e210cf2166753e054d5b7c31cc7fa86";
      protocol = some uniswap_v3;
      exchange = some pancake_swap;
      address_type = router;
      label = text "PancakeSwap V3 Smart Router";
    })
    ∷ (record {
      address = text "0xf66dea7b3e897cd44a5a231c61b6b4423d613259";
      protocol = some virtuals;
      exchange = some virtuals;
      address_type = bonding;
      label = text "Virtuals Bonding Proxy";
    })
    ∷ (record {
      address = text "0x0b3e328455c4059eeb9e3f84b5543f74e24e7e1b";
      protocol = some virtuals;
      exchange = some virtuals;
      address_type = token;
      label = text "Virtuals Token";
    })
    ∷ []

unfoldable pub event_signature_entries : List EventSignatureEntry
unfolding text
event_signature_entries =
    (record {
      signature = text "0xd78ad95fa46c994b6551d0da85fc275fe613ce37657fb8d5e3d130840159d822";
      protocol = some uniswap_v2;
      exchange = none;
    })
    ∷ (record {
      signature = text "0x1c411e9a96e071241c2f21f7726b17ae89e3cab4c78be50e062b03a9fffbbad1";
      protocol = some uniswap_v2;
      exchange = none;
    })
    ∷ (record {
      signature = text "0x4c209b5fc8ad50758f13e2e108bdbdff36c9b4a5d2f30f6a7c2a25d13f0f5e6d";
      protocol = some uniswap_v2;
      exchange = none;
    })
    ∷ (record {
      signature = text "0xdccd412f0b1252819a70d2cd3248e4723d18f7e41ee2b5f7f8ef4e3d5be2f4d8";
      protocol = some uniswap_v2;
      exchange = none;
    })
    ∷ (record {
      signature = text "0xc42079f94a6350d7e6235f29174924f928cc2ac818eb64fed8004e115fbcca67";
      protocol = some uniswap_v3;
      exchange = none;
    })
    ∷ []

unfoldable pub selector_entries : List SelectorEntry
unfolding text
selector_entries =
    (record { selector = text "0x38ed1739"; protocol = some uniswap_v2; exchange = none })
    ∷ (record { selector = text "0x8803dbee"; protocol = some uniswap_v2; exchange = none })
    ∷ (record { selector = text "0x7ff36ab5"; protocol = some uniswap_v2; exchange = none })
    ∷ (record { selector = text "0xfb3bdb41"; protocol = some uniswap_v2; exchange = none })
    ∷ (record { selector = text "0x18cbafe5"; protocol = some uniswap_v2; exchange = none })
    ∷ (record { selector = text "0x4a25d94a"; protocol = some uniswap_v2; exchange = none })
    ∷ (record { selector = text "0x5c11d795"; protocol = some uniswap_v2; exchange = none })
    ∷ (record { selector = text "0xb6f9de95"; protocol = some uniswap_v2; exchange = none })
    ∷ (record { selector = text "0x791ac947"; protocol = some uniswap_v2; exchange = none })
    ∷ (record { selector = text "0x414bf389"; protocol = some uniswap_v3; exchange = none })
    ∷ (record { selector = text "0xc04b8d59"; protocol = some uniswap_v3; exchange = none })
    ∷ (record { selector = text "0xdb3e2198"; protocol = some uniswap_v3; exchange = none })
    ∷ (record { selector = text "0xf28c0498"; protocol = some uniswap_v3; exchange = none })
    ∷ (record { selector = text "0xac9650d8"; protocol = some uniswap_v3; exchange = none })
    ∷ (record { selector = text "0x3593564c"; protocol = some uniswap_v4; exchange = none })
    ∷ (record { selector = text "0x24856bc3"; protocol = some uniswap_v4; exchange = none })
    ∷ []
