-- ===== src/Response/Status.antt =====
-- src/response/status.rs
use zipring.Prelude.Bytes.{Bytes, codes}

pub data HttpStatus : Type 0 where
  not_found bad_request uri_too_long header_too_long method_not_allowed : HttpStatus
  -- An entry compressed by a method that no decoder was compiled in for.
  unsupported_compression : HttpStatus

unfoldable pub as_str : HttpStatus → Bytes
as_str not_found = codes "404 Not Found"
as_str bad_request = codes "400 Bad Request"
as_str uri_too_long = codes "414 URI Too Long"
as_str header_too_long = codes "431 Request Header Fields Too Large"
as_str method_not_allowed = codes "405 Method Not Allowed"
as_str unsupported_compression = codes "500 Unsupported Compression"
