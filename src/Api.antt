-- ===== src/Api.antt =====
-- The API types that the services' part of the program reads and writes, api/v1beta1, with the
-- fields that the modelled code uses. A Go string is a String, and an absent one is "". Values
-- that the code only copies and never looks into (Helm options, raw JSON, structures of other
-- projects) are kept in their serialised form.
mod Services
mod Sets
mod Cluster
pub use Services.*
pub use Sets.*
pub use Cluster.*
