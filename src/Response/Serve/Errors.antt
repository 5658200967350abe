-- ===== src/Response/Serve/Errors.antt =====
-- On the requests that are answered with an error's status.
use zipring.Prelude.Bytes.{Bytes}
use zipring.Request.Parse.{Request}
use zipring.Response.Entry.{Entry}
