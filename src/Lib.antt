-- ===== src/Lib.antt =====
-- A verification library of the core services of DouyinMall, an online mall of Go microservices.
--
-- The parts of the program and how they interact. A checkout (backend/internal/checkout) prices an
-- order, commits its stock at the inventory service (backend/internal/inventory), locks its coupons at
-- the coupon service (backend/internal/coupon), creates the order at the order service
-- (backend/internal/order) and opens a payment at the payment service (backend/internal/payment). The
-- callback of the provider moves the payment on and leaves an event in the outbox of the payment
-- service, the order service moves the order on, and its events go out through an outbox of its own.
-- The seckill service (backend/internal/seckill) sells a limited stock: a submission reserves a unit in
-- Redis and sends a message in a transaction of the broker, the consumer of the message moves the
-- request on in the database and creates its order, and the messages of closed orders give units back.
-- The RPC clients spread their calls by a weighted round robin (backend/pkg/grpcx/balancer/wrr).
--
-- Base: the shared types. Base/Words has int64 and int32 as bit patterns with Go's wrap-around,
-- Base/Table the statements of SQL on the list of the rows of a table, Base/Effects the action of a
-- call that can fail over a store: `World.fails n` says whether the n-th call of the database or of
-- another service fails, and `transaction` restores the store where the body or the commit fails.
-- Base/Counts says what the statements do to the number of the rows of a kind.
-- Base/Strings has `strings.TrimSpace` and `strconv.ParseInt`.
--
-- Inventory: Store and Repository are infra/repository/gorm.go (CommitStock is `commit_stock`,
-- RefundStock is `refund_stock`, AdjustStock is `adjust_stock`, GetInventory is `get_inventory`),
-- Service is usecase/ and transport/grpc/handler.go (`handle_commit` and so on).
-- Order: Domain is domain/ (Order.Pay is `pay_order`), Store is infra/db and the mappings, Repository
-- and Outbox are infra/repository/order.go and outbox.go, CreateOrder and UseCases are usecase/
-- (`create_execute`, `change_execute`, `batch_cancel_execute`), Jobs is job/ and
-- infra/mq/payment_consumer.go.
-- Payment: Domain is domain/payment.go (ApplyProviderResult is `apply_provider_result`), Store and
-- Repository are infra/db and infra/repository, UseCases is usecase/ (UpdatePaymentByTxn is
-- `update_payment_by_txn`).
-- Coupon: Domain is domain/coupon.go, Repository is infra/repository/coupon_repo.go, UseCases is
-- usecase/ (`reserve_execute`).
-- Checkout: Domain is domain/checkout.go, Adapters is usecase/adapters.go, PlaceOrder is
-- usecase/place_order.go, with the calls of the other services as a log.
-- Seckill: Domain is domain/, Store, Repository and Transactions are infra/db and
-- infra/repository/gorm.go (AdvanceProcessing is `advance_processing`), Cache is
-- infra/repository/cache.go with its Lua scripts and infra/local, Processor and DeadLetters are
-- infra/mq/processor.go and order_status_consumer.go (Process is `process`), Submit and Activities are
-- usecase/ and infra/mq/producer.go. Seckill/Machine is the abstract machine of the tables: a relation
-- `Step` with one constructor for each way in which the rows change, and `Sound`, which says what rows
-- fit together. A transaction locks the row of its request and is taken at once; a run of operations,
-- of any messages in any order, each as often as it comes, is a list. The order service is a parameter:
-- what its calls answer.
-- Balancer: Picker is pkg/grpcx/balancer/wrr/wrr.go.
-- Cart: Rows is repository/dao/cart.go (UpsertIncrementBatch is `upsert_increment_batch`). Cart/Changes
-- has the specification: `line_after` says what each operation makes of the line of one user and SKU.
-- The other modules of each part hold its lemmas and theorems, and Tests its examples.
--
-- Of the cart only the table is modelled, not the copy in Redis, which backend/internal/cart writes
-- first, nor the goroutines that bring the table up to date.
--
-- Goroutines of the submission that write to Redis wait in the list `writes` of a node, and
-- `write_result` is the step of any of them. A `Delivery` says what the broker and Redis do beyond the
-- calls that fail. The id that AUTO_INCREMENT has next and the order in which a query without ORDER BY
-- lists its rows are arguments. The log of a checkout's calls has what has been asked for, whether or
-- not it has been done.
--
-- Other transactions act where a use case reads outside its own transaction: an argument `others`
-- changes the tables in any way between the two. Loops are recursions on lists. Two have fuel:
-- `process_by_batch` takes one unit for each slice of at most 10000 orders and is given as many units
-- as there are orders, and `run_from` takes one unit for each full batch of 100 events.
--
-- Not modelled: the Redis caches but for the seckill's, which the modelled operations fill on a best
-- effort, logs, the timeouts of contexts other than as failed calls, the times at which keys of Redis
-- expire, generated code, and the services without a module here (aftersale, product, user,
-- search, the gateway and the assistant).
pub mod Base
pub mod Inventory
pub mod Order
pub mod Payment
pub mod Coupon
pub mod Checkout
pub mod Seckill
pub mod Balancer
pub mod Cart
