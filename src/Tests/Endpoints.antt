-- ===== src/Tests/Endpoints.antt =====
-- Runs of the theorems on the order channel and the accounts, for client 3.
use dex_server.Prelude.{none, some, [], ◌∷◌, ◌≡◌, refl, arith}
use dex_server.Domain.Errors.{ok}
use dex_server.Domain.Account.{Account}
use dex_server.Domain.Order.Validation.{hashed, recover}
use dex_server.Domain.OrderCancel.{OrderCancel, get_sender_address}
use dex_server.Backend.Memory.{Memory, memory, memory-IsSelective}
use dex_server.Prelude.Int.{pos}
use dex_server.Codec.{object, nil}
use dex_server.Codec.Orders.{marshal_order}
use dex_server.Codec.Orders.RoundTrip.{IsWritable, unmarshal_order-marshal_order}
use dex_server.Codec.Cancels.{marshal_order_cancel, unmarshal_order_cancel}
use dex_server.Services.Accounts.{
  find_or_create, found_or_create, get_account, create_account, new_account,
}
use dex_server.Services.Pairs.{
  IsCreated, create_pair, create_absent, create_on, create_between, insert_pair,
  create_pair-IsCreated,
}
use dex_server.Services.Validator.{get_by_token_address}
use dex_server.Daos.Tokens.{get_token, get_all_tokens}
use dex_server.Domain.Pair.{Pair}
use dex_server.Services.Orders.{submit_order, request_cancel}
use dex_server.Endpoints.Orders.{Session, decode_order, handle_new_order, handle_cancel_order}
use dex_server.Endpoints.Orders.Outcomes.{
  handle_cancel_order-request_cancel, handle_new_order-submit_order,
}
use dex_server.Tests.Samples.{bid, pair, market, crypto, value_or}
use dex_server.Tests.Texts.{texts, texts-TextLaws}

abbrev session : Session Memory
session = record { world = market; connections = λ a. none; replies = [] }

abbrev request : OrderCancel
request = record { order_hash = 20; hash = 8; signature = some (record { v = 28; r = 3; s = 4 }) }

handle_cancel_order-request_cancel_example :
    (handle_cancel_order memory crypto texts 9 3
      (value_or (object nil) (marshal_order_cancel texts request))
      session).1.world
    ≡ (request_cancel memory 20 market).1
unfolding marshal_order_cancel unmarshal_order_cancel get_sender_address recover
handle_cancel_order-request_cancel_example =
    handle_cancel_order-request_cancel memory crypto texts 9 3
      (value_or (object nil) (marshal_order_cancel texts request)) request session refl (λ x h. cc)

abbrev account : Account
unfolding new_account
account = record (new_account 5 market.tokens) { created_at = 100; updated_at = 100 }

bid-IsWritable : IsWritable bid
bid-IsWritable = record {
  status_spelled = refl;
  side_spelled = refl;
  complete = (refl, refl, refl, refl, refl);
  unfilled = λ h. cc;
  byte = λ s h. ground arith;
}

bid-decoded : decode_order texts (marshal_order texts bid) ≡ ok bid
unfolding marshal_order decode_order
bid-decoded = unmarshal_order-marshal_order texts-TextLaws bid bid-IsWritable

handle_new_order-submit_order_example :
    (handle_new_order memory crypto texts 9 3 (marshal_order texts bid) session).1.world
    ≡ (submit_order memory crypto 9
        (hashed crypto bid)
        (record market { accounts = account ∷ [] })).1
unfolding account find_or_create found_or_create get_account get_all_tokens create_account
    new_account
handle_new_order-submit_order_example =
    handle_new_order-submit_order memory crypto texts 9 3 (marshal_order texts bid) bid account
      (record market { accounts = account ∷ [] }) session bid-decoded refl

abbrev listing : Pair
listing = record pair { base_token_symbol = ""; base_token_address = 3; quote_token_symbol = "" }

abbrev listed_pair : Pair
listed_pair = record pair {
  base_token_symbol = "C";
  base_token_address = 3;
  base_token_decimals = pos 18;
  quote_token_decimals = pos 18;
}

create_pair-IsCreated_example :
    IsCreated memory listing listed_pair market (record market { pairs = pair ∷ listed_pair ∷ [] })
unfolding create_pair create_absent create_on create_between insert_pair get_token
    get_by_token_address
create_pair-IsCreated_example = create_pair-IsCreated memory memory-IsSelective listing market refl
