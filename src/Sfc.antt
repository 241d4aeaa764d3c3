-- ===== src/Sfc.antt =====
-- src/endpoint/utils: the SFC header (sfcheaderstruct.h), the functions on it (sfcutilities.h and
-- .cpp) and the class around it (sfcfixedlengthheader.h and .cpp).
mod Header
mod Utilities
pub mod FixedLength
pub mod Fields
pub mod RoundTrip
unfoldable pub use Header.*
unfoldable pub use Utilities.*
