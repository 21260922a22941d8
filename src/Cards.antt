-- ===== src/Cards.antt =====
-- backend/src/cards/cards.service.ts: `CardsService`: the lookups with their checks (Access), the
-- loops over positions (Order), the methods (Service) and the labels of a card (Assignment).
pub mod Access
pub mod Order
pub mod Service
pub mod Assignment
pub mod Passes
pub mod Ownership
pub mod Dense
pub mod Moving
pub mod Reorder
pub mod Full
pub mod Counting
pub mod Transfer
pub mod Untouched
pub mod CrossMove
pub mod Refusal
pub mod Creation
pub mod Removal
