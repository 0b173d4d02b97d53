-- ===== src/Hist.antt =====
-- The history service, done_mod/mod_hist/hist_srv: which values it keeps (Retention), the keys that
-- it stores them under (Encoding), the adding of a value (Adding) and of several (Bulk).
pub mod Retention
pub mod Encoding
pub mod Adding
pub mod Bulk
pub mod Cursors
pub mod Latest
use done_rest.Prelude.{ℕ, String}

-- done_tool/things/ThingValue.go. Times are in milliseconds after the epoch.
pub record ThingValue : Type 0 where
  pub agent_id : String
  pub thing_id : String
  pub name : String
  pub payload : String
  pub created_msec : ℕ
  pub sender_id : String
  pub value_type : String
