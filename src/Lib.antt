-- ===== src/Lib.antt =====
-- A model of the decentralised exchange server: the path of an order from its submission over the
-- matching engine to the execution of its trades, and of a deposit from another chain to the tokens
-- that it is exchanged for, and theorems on them.
--
-- The program. A client submits a signed order (services/order.go, NewOrder). The service validates
-- it, checks the owner's funds (services/validator.go) and publishes it on a queue. The engine
-- (engine/engine.go) takes it to the order book of its pair (engine/orderbook.go), which matches it
-- with the stored orders of the other side (daos/order.go) and publishes a response. The service
-- stores the trades whose makers are still covered (daos/trade.go), hands them to the operator, has
-- the others invalidated, and notifies the clients. The operator (operator/operator.go) queues the
-- trades, a queue (operator/txqueue.go) executes them on the chain, and the service tells the
-- clients what became of them.
--
-- A user who deposits coins of another chain asks for an address there (endpoints/deposit.go), which
-- is stored with the user (services/deposit.go, daos/association.go). A listener
-- (swap/ethereum/listener.go, swap/bitcoin/listener.go) goes over the blocks of the chain and hands
-- the payments to the endpoint, which queues those to a stored address. The account configurator
-- (swap/tomochain/account_configurator.go) takes them and submits an offer, for which the endpoint
-- transfers tokens.
--
-- The files.
--   Prelude     Boolean tests, lists and integers over the native numbers
--   Numbers     utils/math/big.go; each comparison with what it decides, and the ruleset `numbers`
--   Domain      Errors: the errors that the code returns, and the pair of a value and an error
--               Order: types/order.go; Order/Validation: the checks on an order, with
--               types/signature.go
--               Account: types/account.go and types/token.go
--               Deposit: types/deposit.go and types/config.go
--               Pair, Trade, Matches: types/pair.go, types/trade.go, types/engine.go and
--               types/operator.go; OrderCancel: types/order_cancel.go
--   Backend     the services that the program calls, as operations on a state of the world; Monad:
--               chains of calls that may fail; Laws: what is relied on; Memory: services in memory
--               that satisfy the laws
--   Daos        Orders/Updates, Orders/Queries, Trades, Pairs, Tokens: daos/order.go, daos/trade.go,
--               daos/pair.go and daos/token.go;
--               Orders/Depth: the order book by price; Associations, Config: daos/association.go
--               and daos/config.go; Orders/Priority, Orders/Filling and Orders/Depth/Levels,
--               with Amounts: theorems on them
--   Codec       the JSON and BSON forms: Orders and Documents: types/order.go; Trades and Documents:
--               types/trade.go; Pairs: types/pair.go; Cancels: types/order_cancel.go; the modules
--               RoundTrip are theorems on them
--   Engine      OrderBook: engine/orderbook.go; OrderBook/Allocation is the specification of a
--               fill, OrderBook/Fills, Orders, Resumed, Serving, Rounds, Settling, Stored and BestPrice
--               are about the code; Dispatch: engine/engine.go; Transport: rabbitmq/orders.go;
--               Delivery: orders on their way through the queue to their book
--   Services    Validator: services/validator.go; Orders, Orders/Responses, Orders/Settlement:
--               services/order.go; Orders/Submission, Orders/Splitting and
--               Orders/Settlement/Messages are theorems on it
--               Accounts: services/account.go with daos/account.go; OrderBooks and OrderBooks/Depth:
--               services/orderbook.go; Candles: services/ohlcv.go; Trades: services/trade.go
--               Pairs: the creation of a pair in services/pair.go
--               Deposits: services/deposit.go; Deposits/Addresses: the index and the
--               address that a request gets
--   Operator    Queues: operator/operator.go; Execution: operator/txqueue.go with services/trade.go
--               and rabbitmq/operator.go; Execution/Protocol: the messages of an execution
--   Ws          Sockets: ws/orderbook.go, whose copies ws/raw_orderbook.go, ws/trades.go and
--               ws/ohlcv.go differ in names, with ws/client.go and ws/connection.go;
--               OrderConnections: ws/orders.go, whose copy is ws/deposit.go, and ws/main.go; Relation,
--               Refinement, Closing and Removal are theorems on them
--   Swap        Ethereum, Bitcoin: the listeners of swap/ethereum and swap/bitcoin, with Rounds for
--               their loops; Passing, Ethereum/Served and the modules Passed are theorems on them;
--               Amounts: amounts of coins; Amounts/Exact: a theorem on them
--               Configurator: swap/tomochain; Configurator/Courses: a theorem on it
--   Endpoints   Orders: the order channel of endpoints/order.go; Orders/Outcomes are theorems on it
--               OrderBooks: the order book by price of endpoints/orderbook.go
--               Deposits: endpoints/deposit.go, with Deposits/Events; Deposits/Queueing, Settlement,
--               Waits and Waiting are theorems on it
--   Tests       the theorems at concrete orders
--
-- How code and model correspond. A method is a function of the same name in lower case with
-- underscores; a method that calls a service is an action, a function of the state of the world that
-- returns a result and the next state, so that what was done before an error stays done. A method
-- that writes to an object that it is given returns the object as it is then; where the taker order
-- of the matches is such an object, the matches change with it. A lock makes a call one step.
-- Addresses, hashes and times are natural numbers; a hash function, the recovery of a key and the
-- bytes of a number are parameters. A `*big.Int` is an integer; whether the pointer is set is a flag
-- where the code tests it, and elsewhere it is taken to be set, as `Process` sees to for an order
-- that it accepts. An index out of range, a nil order and a nil pair are the error `runtime_panic`.
--
-- The database. A query is the test that it makes of a document, an update its change of one, and a
-- sort its order. Prices are compared as integers, where MongoDB compares decimals of 34 digits. An
-- upsert or an update of one document that fails makes no change. The
-- collections keep a time as it was written; that the database keeps it less precisely is a
-- parameter, `bson_time`, of the theorems on the BSON forms only.
--
-- The codecs. A JSON text is the value that it stands for; how integers, addresses, hashes and times
-- are printed and read is a parameter, which reads what it has printed. Statuses and sides are data
-- types with a case for a text that the code does not name.
--
-- The websocket server. A client is a number. A map that the code only looks up is a function, one
-- that it ranges over a list of entries; the slice that a handler removes from while it ranges over
-- it is the array behind it with a length. The goroutines of a closing connection run one after the
-- other, in any order. A handler of the order channel acts on the world, the connections and what the
-- client was sent; an error of a service is a value in it, a panic ends it.
--
-- Bounds. The loops are over lists and end with them; the removal from a slice has the number of
-- indices that are left as its fuel, with which it ends. `Retry` makes at most the given number of
-- calls; its pauses are left out. The loops of a listener and of the configurator, which end only
-- when they are told to, are given a number of rounds, and theorems on them hold for every number.
-- Integers are unbounded as in the code. The times of candles are taken to be less than 2 ^ 53
-- seconds, so that the code's floating point is exact.
--
-- Not modelled: logging, the message broker, the reading and writing of websockets, the HTTP
-- endpoints and the channels but those for orders, deposits and order books, the nodes of the
-- chains and the contract bindings, set-up and configuration, the services and collections for
-- tokens, wallets and pair statistics, and the grouping of trades into candles by the database:
-- they are calls of other systems, or views that the path of an order or of a deposit does not
-- depend on.
pub mod Prelude
pub mod Numbers
pub mod Domain
pub mod Backend
pub mod Daos
pub mod Codec
pub mod Engine
pub mod Services
pub mod Operator
pub mod Ws
pub mod Swap
pub mod Endpoints
pub mod Tests
