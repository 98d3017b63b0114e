-- ===== src/Base62.antt =====
-- Base-62 texts: packages/golib/base62/base62.go and the encoder of API keys in
-- services/garudaportal/apikey/generator.go.
pub mod Digits
pub mod Encode
pub mod Decode
pub mod RoundTrip
pub mod Bytes
pub mod Size
mod Tests
