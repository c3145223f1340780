-- ===== src/Schema.antt =====
-- The tables of prisma/schema.prisma that the services below read and write, and the errors of
-- src/utils/errors.ts that they throw. Identifiers, wallet addresses and transaction hashes are
-- only compared, so they are numbers; times are milliseconds; amounts are in units of 10^-8, the
-- scale of the money columns.
mod Enums
mod Rows
mod Errors
pub use Enums.*
pub use Rows.*
pub use Errors.*
