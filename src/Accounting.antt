-- ===== src/Accounting.antt =====
-- Cash accounting of a long-spot, short-perpetual carry: python/perpcarry/strategy/accounting.py.
-- Every method returns a new ledger or raises; nothing is written in place. `decimal` rounds to the
-- fifty digits of its context only where a hypothesis `IsExact` is absent.
pub mod Leg
pub mod State
pub mod Fills
pub mod Payments
pub mod Valuing
pub mod Steps
pub mod Cash
pub mod Balance
pub mod Order
pub mod Boundaries
pub mod Replay
pub mod Sides
mod Examples
