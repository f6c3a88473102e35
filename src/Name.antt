-- ===== src/Name.antt =====
-- src/core/parser/name.rs: domain names in a message, compressed as in RFC 1035 4.1.4.
pub mod Defs
pub mod Fuel
pub mod Spells
pub mod Table
pub mod Write
pub mod Text
pub mod RoundTrip
pub mod Pure
pub mod Size
pub mod Tests
pub use Defs.{Name, NameCompression, dot}
unfoldable pub use Defs.{join, contains, be_name_labels, labels_fuel, be_name, put_name}
