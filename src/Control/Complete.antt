-- ===== src/Control/Complete.antt =====
-- Every setting of the platform's content policy is in the effective configuration or reported
-- (`merge_content_policy` of src/control.rs).
use inference_io.Bytes.{Bytes}
use inference_io.Json.{Fields}
use inference_io.Control.Config.{Merge}
