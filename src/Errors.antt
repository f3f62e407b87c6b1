-- ===== src/Errors.antt =====
-- Failures of calls, their messages, and which of them may pass (typescript/heino/src/lib/connect-error.ts
-- and interactions/_shared/connect-error-message.ts).
pub mod Transient
use bachelor_thesis.Prelude.{
  begins, ℕ, zero, suc, String, Bool, true, false, ◌||◌, if◌then◌else◌, or_text,
}

-- The codes of the RPC library.
pub data Code : Type 0 where
  canceled unknown invalid_argument deadline_exceeded not_found already_exists : Code
  permission_denied resource_exhausted failed_precondition aborted out_of_range : Code
  unimplemented internal unavailable data_loss unauthenticated : Code

-- What was thrown: a `ConnectError` with its code, raw message and message, a `TypeError` or another
-- `Error` with its message, each with its `cause`; or a value that is no `Error`, or no cause.
pub data Failure : Type 0 where
  connect : Code → String → String → Failure → Failure
  type_error : String → Failure → Failure
  error : String → Failure → Failure
  value : Failure

-- `String.prototype.includes`.
unfoldable pub includes : String → String → Bool
unfolding begins
includes String.[] p = begins p ""
includes (String.◌∷◌ c s) p = begins p (String.◌∷◌ c s) || includes s p

abbrev unreachable : String
unreachable = "Không thể kết nối máy chủ. Vui lòng kiểm tra mạng và thử lại."

abbrev slow : String
slow = "Máy chủ phản hồi quá chậm. Vui lòng thử lại."

connect_error_to_message : Code → String → String → String
connect_error_to_message Code.unavailable raw fallback =
    "Máy chủ tạm thời không phản hồi. Vui lòng thử lại sau ít phút."
connect_error_to_message Code.deadline_exceeded raw fallback =
    "Máy chủ tạm thời không phản hồi. Vui lòng thử lại sau ít phút."
connect_error_to_message Code.unauthenticated raw fallback =
    "Phiên đăng nhập đã hết hạn. Vui lòng đăng nhập lại."
connect_error_to_message Code.permission_denied raw fallback =
    "Bạn không có quyền thực hiện thao tác này."
connect_error_to_message Code.not_found raw fallback = "Không tìm thấy dữ liệu yêu cầu."
connect_error_to_message Code.already_exists raw fallback = "Dữ liệu đã tồn tại."
connect_error_to_message Code.resource_exhausted raw fallback =
    "Quá nhiều yêu cầu. Vui lòng chờ một lát rồi thử lại."
connect_error_to_message Code.failed_precondition raw fallback =
    or_text raw "Điều kiện tiên quyết chưa được đáp ứng."
connect_error_to_message Code.invalid_argument raw fallback = or_text raw "Dữ liệu không hợp lệ."
connect_error_to_message Code.internal raw fallback = "Lỗi hệ thống nội bộ. Vui lòng thử lại."
connect_error_to_message Code.aborted raw fallback = "Thao tác bị hủy. Vui lòng thử lại."
connect_error_to_message _ raw fallback = fallback

-- The tests that every `Error` goes through.
error_to_message : String → String → String
unfolding includes
error_to_message message fallback =
    if includes message "ECONNREFUSED" || includes message "connect ECONNREFUSED"
    then unreachable
    else if includes message "timeout" || includes message "Timeout"
    then slow
    else fallback

unfoldable pub to_user_message : Failure → String → String
unfolding connect_error_to_message error_to_message includes
to_user_message (connect code raw message cause) fallback =
    connect_error_to_message code raw fallback
to_user_message (type_error message cause) fallback =
    if includes message "fetch" || includes message "ECONNREFUSED" || includes message "network"
    then unreachable
    else error_to_message message fallback
to_user_message (error message cause) fallback = error_to_message message fallback
to_user_message value fallback = fallback

-- `lower` is the language's `toLowerCase`.
module _ (lower : String → String) where
  pub looks_transient : String → Bool
  unfolding includes
  looks_transient message =
      let msg = lower message in
      includes msg "econnrefused"
      || includes msg "fetch"
      || includes msg "network"
      || includes msg "unavailable"
      || includes msg "timeout"
      || includes msg "502"
      || includes msg "503"

  -- The loop over the causes, at most `fuel` of them.
  transient_chain : ℕ → Failure → Bool
  transient_chain zero e = false
  transient_chain (suc fuel) (connect code raw message cause) =
      looks_transient message || transient_chain fuel cause
  transient_chain (suc fuel) (type_error message cause) =
      looks_transient message || transient_chain fuel cause
  transient_chain (suc fuel) (error message cause) =
      looks_transient message || transient_chain fuel cause
  transient_chain (suc fuel) value = false

  unfoldable pub is_transient_error : Failure → Bool
  unfolding transient_chain looks_transient
  is_transient_error (connect Code.unavailable raw message cause) = true
  is_transient_error (connect Code.deadline_exceeded raw message cause) = true
  is_transient_error (connect _ raw message cause) = false
  is_transient_error e = transient_chain 5 e

preview_grade_by_code : Code → String
preview_grade_by_code Code.unavailable = "Hệ thống AI tạm thời quá tải, hãy thử ghi âm lại."
preview_grade_by_code Code.deadline_exceeded = "Hệ thống AI tạm thời quá tải, hãy thử ghi âm lại."
preview_grade_by_code Code.failed_precondition =
    "Chưa thể chấm điểm ngay — lớp học chưa bật chế độ phản hồi tức thì."
preview_grade_by_code _ = "Chưa chấm được phần ghi âm này. Giáo viên sẽ xem lại khi bạn nộp bài."

unfoldable pub preview_grade_error_message : Failure → String
unfolding preview_grade_by_code
preview_grade_error_message (connect code raw message cause) = preview_grade_by_code code
preview_grade_error_message _ =
    "Chưa chấm được phần ghi âm này. Giáo viên sẽ xem lại khi bạn nộp bài."

submit_attempt_by_code : Code → String → String
submit_attempt_by_code Code.unavailable raw =
    "Hệ thống đang xử lý chậm. Hãy thử lại sau ít phút — bài làm của bạn chưa bị mất."
submit_attempt_by_code Code.deadline_exceeded raw =
    "Hệ thống đang xử lý chậm. Hãy thử lại sau ít phút — bài làm của bạn chưa bị mất."
submit_attempt_by_code Code.unauthenticated raw =
    "Phiên đăng nhập đã hết hạn. Hãy đăng nhập lại rồi nộp bài."
submit_attempt_by_code Code.invalid_argument raw =
    or_text raw "Bài làm chưa hợp lệ. Kiểm tra lại câu trả lời rồi nộp lại."
submit_attempt_by_code Code.failed_precondition raw =
    or_text raw "Bài làm chưa hợp lệ. Kiểm tra lại câu trả lời rồi nộp lại."
submit_attempt_by_code _ raw = "Không nộp được bài. Vui lòng thử lại."

unfoldable pub submit_attempt_error_message : Failure → String
unfolding submit_attempt_by_code
submit_attempt_error_message (connect code raw message cause) = submit_attempt_by_code code raw
submit_attempt_error_message _ = "Không nộp được bài. Vui lòng thử lại."
