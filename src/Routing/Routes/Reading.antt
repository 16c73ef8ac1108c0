-- ===== src/Routing/Routes/Reading.antt =====
-- Reading the documents of the route ledger of Routing/src/RouteManager.cpp.
use vpn_client.Prelude.{
  ℕ, ◌<◌, ◌^◌, true, false, ◌==◌, Option, none, some, [], ◌∷◌, ◌++◌, ◌≡◌, refl, sym, ap, ◌∙◌, arith,
  codes, equal,
}
use vpn_client.Core.Status.{value}
use vpn_client.Core.Text.{to_decimal}
use vpn_client.Core.Json
use vpn_client.Core.Json.{JsonLibrary, lookup, get-object}
use vpn_client.Networking.Address
use vpn_client.Networking.Address.{IpAddress, from_v4}
use vpn_client.Networking.Range
use vpn_client.Networking.Range.{IpRange}
use vpn_client.Networking.Range.Reading.{parse-format_v4, try_parse-format_v4}
use vpn_client.Routing.Routes.{RouteEntry, to_json, from_json, hop_from_json}

-- The four octets of an IPv4 address.
pub record IsFour (address : IpAddress) : Type 0 where
  pub first : ℕ
  pub second : ℕ
  pub third : ℕ
  pub fourth : ℕ
  pub small : (first < 256) × (second < 256) × (third < 256) × (fourth < 256)
  pub made : address ≡ from_v4 (first ∷ second ∷ third ∷ fourth ∷ [])

-- Reading back the text of an address and of a range.
parse-to_string :
    (address : IpAddress)
    → IsFour address
    → Address.parse (Address.to_string address) ≡ value address
unfolding Address.parse Address.to_string
parse-to_string address four =
    let (ha, hb, hc, hd) = four.small in
    rw four.made (
      rw
        (
          try_parse-format_v4 four.first four.second four.third four.fourth ha hb hc hd,
          Address.parse,
        )
        refl)

range_parse-to_string :
    (range : IpRange)
    → IsFour range.network
    → range.prefix_length < 256
    → Range.make range.network range.prefix_length ≡ value range
    → Range.parse (Range.to_string range) ≡ value range
unfolding Range.to_string Address.to_string
range_parse-to_string range four small canonical =
    let (ha, hb, hc, hd) = four.small in
    ap
      (λ address.
        Range.parse (Address.to_string address ++ (b'/' ∷ to_decimal range.prefix_length)))
      four.made
    ∙ parse-format_v4 four.first four.second four.third four.fourth ha hb hc hd range.prefix_length
        (omega arith)
    ∙ ap (λ p. Range.make (from_v4 (four.first ∷ four.second ∷ four.third ∷ four.fourth ∷ [])) p)
        (omega (arith, small))
    ∙ ap (λ address. Range.make address range.prefix_length) (sym four.made)
    ∙ canonical

module _ (L : JsonLibrary) (law : Json.IsLawful L) where
  open L use {Json, object, text, number, boolean, as_text, as_unsigned, as_boolean, member}

  -- The next hop is absent or an IPv4 address.
  abbrev pub IsHop : Option IpAddress → Type 0
  IsHop none = Unit
  IsHop (some hop) = IsFour hop

  hop_from_json-to_json :
      (entry : RouteEntry) (hop : Option IpAddress)
      → IsHop hop
      → hop_from_json L (to_json L (record entry { next_hop = hop })) ≡ value hop
  unfolding hop_from_json to_json lookup equal
  hop_from_json-to_json entry none four = rw (law.member-object, hop_from_json) refl
  hop_from_json-to_json entry (some hop) four =
      rw (law.member-object, hop_from_json)
        (rw
          (get-object L law as_text _ (codes "nextHop") (text (Address.to_string hop))
            (Address.to_string hop) [] refl (law.as_text-text (Address.to_string hop)))
          (rw (parse-to_string hop four) refl))

  from_json-next :
      (entry : RouteEntry) (hop : Option IpAddress)
      → IsFour entry.destination.network
      → IsHop hop
      → Range.make entry.destination.network entry.destination.prefix_length
        ≡ value entry.destination
      → entry.destination.prefix_length < 256
      → (entry.interface_index == 0) ≡ false
      → entry.interface_index < 2 ^ 32
      → entry.metric < 2 ^ 32
      → from_json L (to_json L (record entry { next_hop = hop }))
        ≡ value (record entry { next_hop = hop })
  unfolding from_json to_json lookup equal
  from_json-next entry hop four hop_four canonical small present index_fits metric_fits =
      let next : RouteEntry = record entry { next_hop = hop } in
      let destination = Range.to_string entry.destination in
      let index_json = number entry.interface_index in
      let metric_json = number entry.metric in
      rw (law.is_object-object, from_json)
        (rw
          (get-object L law as_text _ (codes "destination") (text destination) destination [] refl
            (law.as_text-text destination))
          (rw (range_parse-to_string entry.destination four small canonical) (
            rw (hop_from_json-to_json entry hop hop_four) (
              rw
                (get-object L law (as_unsigned 32) _ (codes "interfaceIndex") index_json
                  entry.interface_index 0 refl
                  (law.as_unsigned-number 32 entry.interface_index index_fits))
                (rw present (
                  rw
                    (get-object L law (as_unsigned 32) _ (codes "metric") metric_json entry.metric 0
                      refl (law.as_unsigned-number 32 entry.metric metric_fits))
                    (rw
                      (get-object L law as_boolean _ (codes "owned") (boolean entry.owned)
                        entry.owned true refl (law.as_boolean-boolean entry.owned))
                      refl)))))))

  -- An entry whose destination is a range that `IpRange::make` returns for an IPv4 address, whose next
  -- hop is absent or an IPv4 address, whose interface is not 0 and whose numbers fit 32 bits is read back
  -- from its document.
  pub from_json-to_json :
      (entry : RouteEntry)
      → IsFour entry.destination.network
      → IsHop entry.next_hop
      → Range.make entry.destination.network entry.destination.prefix_length
        ≡ value entry.destination
      → entry.destination.prefix_length < 256
      → (entry.interface_index == 0) ≡ false
      → entry.interface_index < 2 ^ 32
      → entry.metric < 2 ^ 32
      → from_json L (to_json L entry) ≡ value entry
  from_json-to_json entry four hop_four canonical small present index_fits metric_fits =
      from_json-next entry entry.next_hop four hop_four canonical small present index_fits
        metric_fits
