-- ===== src/Types.antt =====
-- web/src/lib/types.ts: the objects that the API speaks. An amount is an integer number of cents; an
-- optional field is an `Option`, as is one that may be null.
pub mod Ledger
pub mod Deposit
pub mod Payment
pub mod Requests
