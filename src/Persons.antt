-- ===== src/Persons.antt =====
-- The persons page: frontend/src/pages/persons/personsMeta.ts.
pub mod Facts
pub mod Rows
pub mod Laws
mod Tests
