-- ===== src/Lib.antt =====
-- The point-of-sale API of TechNova: the services that move goods and money, modelled from the
-- TypeScript sources, with the properties that make them correct.
--
-- Parts of the program, and where they are modelled:
--
--   Directory, Stock, Stock/Ledger     prisma/schema.prisma: the users, branches and products that
--                                      every service reads first, and the tables of stock levels,
--                                      serialized units and movements that they share. Ledger holds
--                                      the balance of a product at a branch, by row and by log.
--   Inventory                          src/modules/inventory/inventory.service.ts. Adjust, Transfer,
--                                      Dispatch and Receive model `adjust`, `createTransfer`,
--                                      `dispatch` and `receive`; Sound is the invariant, Runs the
--                                      step relation of successful requests, Order the order of the
--                                      steps of one transfer, Effects the quantities.
--   Sales                              src/modules/sales/sales.service.ts. Pricing has the line
--                                      prices of `create` and of `quote`. Customers and Checks are the
--                                      checks of `create` before its transaction, Selling the loop of
--                                      the transaction, Settling the statements behind the loop, and
--                                      Checkout the whole of `create`. Quote is `quote`.
--                                      The other children are about what they do: Charged the
--                                      lines, Paid the money, Limit the credit, Accounts the
--                                      points, Goods the stock.
--   Calendar                           src/modules/sales/warranty-period.ts.
--   Credit                             src/modules/credit/credit.service.ts: Overdue (`markOverdue`),
--                                      Allocate (the loop of `repay`), Repay (`detail`, `repay`).
--   Purchasing                         src/modules/purchasing/purchasing.service.ts: Order (`create`,
--                                      `approve`), Prepare and Receive (`receive` before its
--                                      transaction, and the whole of it).
--   Loyalty                            src/modules/loyalty/loyalty.service.ts: Rules (`createRule`,
--                                      `updateRule`) and Points (`adjust`).
--   Returns                            src/modules/returns/returns.service.ts: `create`, as Prepare
--                                      (the checks of the lines), Refund (how the money is split and
--                                      given), Restock (the loop over the lines), Offset (the
--                                      installments) and Create (the whole). The other children are
--                                      about what it does, Steps being what they share.
--   Discounts                          src/modules/discounts/discounts.service.ts: Manage (`create`,
--                                      `update`, `remove`, `validate`), Code (`promotionCode`) and
--                                      Lifecycle (`lifecycleStatus`, `dashboard`). Priority and Chosen
--                                      are about the rules that a sale of a product reads, with
--                                      `discountRules` of SalesService.create.
--   Common                             src/common: Pages (dto/pagination.dto.ts, and the query of a
--                                      list by it) and Phone (security/phone.ts).
--   Portal                             src/modules/suppliers/supplier-portal.service.ts: Respond
--                                      (`respond`, `membership`), Review and Dispatch. The orders are
--                                      those of Purchasing.
--   Notifications                      src/modules/notifications/notifications.service.ts: Outbox has
--                                      `processPending`; `deliver` is a parameter. Once is about
--                                      the log of attempts, Workers about several passes at once.
--   Sync                               src/modules/offline-sync/offline-sync.service.ts: `submit`,
--                                      `execute`, `status`, `byClientId`. It executes sales on the
--                                      tables of the till. JSON values, `jsonb` columns and the class
--                                      validator are a parameter, the record `Json`.
--   System                             requests to the services that write the stock tables, in any
--                                      order; each service finds the stock as the last one left it.
--                                      Other tables that two services share are not joined here.
--   Payment                            the payment enums that the money services share.
--   Prelude                            tests, lists, integers, texts and results.
--
-- How the services interact: a sale takes goods from the stock tables that receipts of purchase
-- orders, transfers and adjustments fill, opens the credit agreements that repayments pay off, and
-- starts warranties by the calendar, and earns points by the rule that the loyalty service keeps.
-- Each service's model carries the stock tables as a field of its
-- state, and uses the statements of Stock.
--
-- How the code is modelled:
--
--   - A table is a list of rows. `findUnique` and `findFirst` are the first row that meets the
--     condition, `updateMany` changes every row that meets it, `upsert` on a unique key the first
--     row or a new one. A row that the code creates stands first.
--   - A handler is a function from the state to a result: the new state, or the exception that is
--     thrown. An exception in a transaction gives no new state, which is the rollback. In the credit
--     service the overdue rows are marked outside of the transaction, so its handlers return a state
--     with either outcome.
--   - Ids that the database makes are arguments (`new_id`, `sale`, `payment`), and so are the time
--     (`now`) and what `randomUUID` makes in a goods receipt (`Entropy`). Other random numbers, such
--     as invoice numbers, QR tokens, notifications sent to suppliers, and audit data beyond the id
--     of the row are left out.
--   - Numbers are natural numbers in fixed units: quantities thousandths, prices cents, rates and
--     discount values ten-thousandths, as the columns hold them. Computed amounts are exact: in
--     units of 10 ^ -17 for a sale, which has room for every digit of price times quantity times
--     rate times rate, 10 ^ -5 for a purchase order, 10 ^ -3 for credit, where the tolerances 0.01
--     and 0.001 of the code are 10 and 1. The rounding of floating point and of the columns is not
--     modelled. Subtraction stops at 0 where the code has `Math.max(0, ...)` or a guard before it;
--     elsewhere the result is an integer.
--   - A refund is in the units of a sale, rounded down to them where the code divides.
--   - Texts are lists of code units; `trim` and `toUpperCase` are those of ASCII.
--   - The validation of requests by class-validator decorators happens before the handlers and is
--     not modelled, so the operations are defined on all requests. Requests are handled one at a
--     time, except for the passes over the outbox of messages; all loops run over finite lists, so
--     no fuel is needed.
--
-- Not modelled: read-only queries, the other services (warranties, authentication,
-- templates and queries of notifications, reports, forecasts), and the framework around them.
pub mod Prelude
pub mod Directory
pub mod Stock
pub mod Inventory
pub mod Notifications
pub mod Payment
pub mod Credit
pub mod Calendar
pub mod Sales
pub mod Purchasing
pub mod Loyalty
pub mod Returns
pub mod Discounts
pub mod Sync
pub mod Common
pub mod Portal
pub mod System
