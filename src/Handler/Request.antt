-- ===== src/Handler/Request.antt =====
-- The vector `req_info` of eight strings, by the names of its indices (the enum REQ_TARGET … in
-- handler.cpp and server_http.h).
use pet_project.Base.Text.{Text}

pub record ReqInfo : Type 0 where
  pub target : Text
  pub host : Text
  pub port : Text
  pub ip_address : Text
  pub user_agent : Text
  pub method : Text
  pub result : Text
  pub error : Text
