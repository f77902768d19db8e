-- ===== src/Payments/Korapay.antt =====
-- payments/gateways/korapay.py: requests with retries, and the two calls that the service makes.
use dutchkem_trading_ai.Common.{
  ℕ, zero, suc, ◌+◌, ◌*◌, String, Bool, false, ◌||◌, none, some, List, [], ◌∷◌, str_eq,
  if◌then◌else◌,
}
use dutchkem_trading_ai.Common.Exec.{Result, ok, err}
use dutchkem_trading_ai.Payments.Json.{Json, Fields, bool, text, nil, field, as_dict}
use dutchkem_trading_ai.Payments.Tables.{Error, attribute_error}

-- What one HTTP attempt ends with: the JSON body, or a `RequestException` with its message.
pub data HttpReply : Type 0 where
  body : Json → HttpReply
  failed : String → HttpReply

abbrev pub max_retries : ℕ
max_retries = 3

-- in milliseconds
abbrev pub retry_delay : ℕ
retry_delay = 1000

-- The attempts from `attempt` on, `left` of them, after one that failed with `last`. The list is
-- the sleeps between attempts; the last attempt is not followed by one.
unfoldable pub request_from : ℕ → ℕ → String → (ℕ → HttpReply) → HttpReply × List ℕ
request_from zero attempt last send = (failed last, [])
request_from (suc left) attempt last send = elim (send attempt) [
  | body j ↦ (body j, [])
  | failed e ↦
      let (reply, sleeps) = request_from left (attempt + 1) e send in
      (reply, elim left [ zero ↦ sleeps | suc _ ↦ retry_delay * (attempt + 1) ∷ sleeps ])
]

-- `_request_with_retry`; `send` is the server's answer to each attempt.
unfoldable pub request_with_retry : (ℕ → HttpReply) → HttpReply × List ℕ
unfolding request_from
request_with_retry send = request_from max_retries 0 "" send

unfoldable pub is_supported : String → Bool
is_supported c = str_eq c "NGN" || str_eq c "GHS" || str_eq c "KES" || str_eq c "ZAR"

-- `{"status": False, "message": ...}`
unfoldable pub failure : String → Fields
failure message = field "status" (bool false) (field "message" (text message) nil)

-- `data.get("status")` in the log line raises on a body that is no dict.
unfoldable pub reply_data : HttpReply → Result Error Fields
unfolding as_dict failure
reply_data (failed message) = ok (failure message)
reply_data (body j) = elim (as_dict j) [ none ↦ err attribute_error | some fs ↦ ok fs ]

-- The text of the message about a currency leaves out the currency's name.
unfoldable pub initialize_transaction : (ℕ → HttpReply) → String → Result Error Fields
unfolding request_with_retry reply_data failure is_supported
initialize_transaction send currency =
    if is_supported currency
    then reply_data (request_with_retry send).0
    else ok (failure "Unsupported currency")

unfoldable pub verify_transaction : (ℕ → HttpReply) → Result Error Fields
unfolding request_with_retry reply_data
verify_transaction send = reply_data (request_with_retry send).0
