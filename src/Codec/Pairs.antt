-- ===== src/Codec/Pairs.antt =====
-- types/pair.go: the JSON form that a pair is written in.
use dex_server.Domain.Pair.{Pair}
use dex_server.Codec.{Json, string, number, boolean, object, nil, member, Texts}

module _ (t : Texts) where
  -- `Pair.MarshalJSON` of a pair whose fees are set.
  unfoldable pub marshal_pair : Pair → Json
  marshal_pair p = object (
      member "baseTokenSymbol" (string p.base_token_symbol) (
        member "baseTokenDecimals" (number p.base_token_decimals) (
          member "quoteTokenSymbol" (string p.quote_token_symbol) (
            member "quoteTokenDecimals" (number p.quote_token_decimals) (
              member "baseTokenAddress" (string (t.address_hex p.base_token_address)) (
                member "quoteTokenAddress" (string (t.address_hex p.quote_token_address)) (
                  member "rank" (number p.rank) (
                    member "active" (boolean p.active) (
                      member "listed" (boolean p.listed) (
                        member "makeFee" (string (t.print_int p.make_fee))
                          (member "takeFee" (string (t.print_int p.take_fee)) nil)))))))))))
