-- ===== src/Http/Request.antt =====
-- `HttpRequest` of src/httpd/HttpRequest.h and src/httpd/HttpRequest.cpp.
use v_ubercool.Base.{ℕ, Bool, true, false, [], Bytes, codes}

pub data Version : Type 0 where
  http_1_0 http_1_1 unknown : Version

pub data Method : Type 0 where
  get options head post put delete trace connect unknown : Method

pub record HttpRequest : Type 0 where
  pub version : Version
  pub method : Method
  pub port : ℕ
  pub do_not_track : Bool
  pub request_length : ℕ
  pub uri : Bytes
  pub host : Bytes
  pub accept_encoding_deflate : Bool
  pub accept_encoding_gzip : Bool

-- A new object, and what `Reset` leaves.
abbrev pub no_request : HttpRequest
no_request = record {
  version = Version.unknown;
  method = Method.unknown;
  port = 0;
  do_not_track = false;
  request_length = 0;
  uri = [];
  host = [];
  accept_encoding_deflate = false;
  accept_encoding_gzip = false;
}

-- `HttpRequest::CloseOnReply`.
unfoldable pub is_closing : HttpRequest → Bool
is_closing r = elim r.version [ http_1_0 ↦ true | _ ↦ false ]

-- `GetMethodName`.
unfoldable pub method_name : Method → Bytes
method_name get = codes "GET"
method_name options = codes "OPTIONS"
method_name head = codes "HEAD"
method_name post = codes "POST"
method_name put = codes "PUT"
method_name delete = codes "DELETE"
method_name trace = codes "TRACE"
method_name connect = codes "CONNECT"
method_name Method.unknown = codes "UNKNOWN"

-- `GetHttpVersionName`.
unfoldable pub http_version_name : Version → Bytes
http_version_name http_1_0 = codes "HTTP/1.0"
http_version_name http_1_1 = codes "HTTP/1.1"
http_version_name Version.unknown = codes "UNKNOWN"
