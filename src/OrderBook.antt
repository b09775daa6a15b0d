-- ===== src/OrderBook.antt =====
-- include/orderbook.h: the book of one instrument. `Book` has its state, and one child each has
-- what is done to it; the other children prove what these do.
pub mod Book
pub mod Matching
pub mod Adding
pub mod Cancelling
pub mod Modifying
pub mod Resting
pub mod Priority
pub mod Kept
pub mod Entering
pub mod NewSlot
pub mod Drawing
pub mod Uncrossed
pub mod Settling
pub mod Recording
pub mod Taking
pub mod Accepting
pub mod Opening
pub mod Printing
pub mod Columns
pub mod Printed
pub mod Leaving
pub mod Pruning
pub mod Standing
pub mod Withdrawing
pub mod Amending
pub mod Cancelled
pub mod Refusing
pub mod Revising
pub mod Trade
pub mod Side
pub mod Exchanging
pub mod Round
pub mod Registered
pub mod Loop
mod Tests
mod SampleBooks
mod Samples
mod PrintingTests
