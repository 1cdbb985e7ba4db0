-- ===== src/Common/Errors.antt =====
-- common/errors/errors.go: the error codes, `DomainError` and the tests on it. An `Error` value
-- stands for any Go `error` that the services produce or receive.
use msa_saga_go_practical.Prelude.{ℕ, Bool, true, false, Option, none, some, ◌++◌, ◌==◌}
use msa_saga_go_practical.Prelude.Text.{Text, text}

pub data ErrorCode : Type 0 where
  payment_declined out_of_stock insufficient_balance invalid_order order_not_found : ErrorCode
  duplicate_request not_found conflict : ErrorCode
  database_error network_error timeout_error serialization_error internal_error : ErrorCode
  unknown_error : ErrorCode

-- The value of each constant.
unfoldable pub code_text : ErrorCode → Text
unfolding text
code_text ErrorCode.payment_declined = text "PAYMENT_DECLINED"
code_text ErrorCode.out_of_stock = text "OUT_OF_STOCK"
code_text ErrorCode.insufficient_balance = text "INSUFFICIENT_BALANCE"
code_text ErrorCode.invalid_order = text "INVALID_ORDER"
code_text ErrorCode.order_not_found = text "ORDER_NOT_FOUND"
code_text ErrorCode.duplicate_request = text "DUPLICATE_REQUEST"
code_text ErrorCode.not_found = text "NOT_FOUND"
code_text ErrorCode.conflict = text "CONFLICT"
code_text ErrorCode.database_error = text "DATABASE_ERROR"
code_text ErrorCode.network_error = text "NETWORK_ERROR"
code_text ErrorCode.timeout_error = text "TIMEOUT_ERROR"
code_text ErrorCode.serialization_error = text "SERIALIZATION_ERROR"
code_text ErrorCode.internal_error = text "INTERNAL_ERROR"
code_text ErrorCode.unknown_error = text "UNKNOWN_ERROR"

-- `new` and `wrap` are the two shapes of a `*DomainError`, without and with a cause;
-- `errorf` and `errorf_w` are those of `fmt.Errorf`, without and with a `%w`.
-- `no_rows` is `sql.ErrNoRows`; `driver` is any other error of the database or the network,
-- `unique_violation` is the driver's error with the code 23505, `bad_label` is the database's
-- refusal of a text that is no label of the column's enumeration, and `bad_json` is an error of
-- `json.Unmarshal`.
pub data Error : Type 0 where
  new : ErrorCode → Text → Error
  wrap : ErrorCode → Text → Error → Error
  errorf : Text → Error
  errorf_w : Text → Error → Error
  no_rows driver unique_violation bad_label bad_json : Error

-- `(*DomainError).Unwrap`, with `errors.Unwrap` of the standard library on the other shapes.
pub unwrap : Error → Option Error
unwrap (Error.wrap c m e) = some e
unwrap (Error.errorf_w m e) = some e
unwrap _ = none

-- The type assertion `err.(*DomainError)`, which looks at the outermost error only.
unfoldable pub domain_code : Error → Option ErrorCode
domain_code (Error.new c m) = some c
domain_code (Error.wrap c m e) = some c
domain_code _ = none

abbrev pub code_index : ErrorCode → ℕ
code_index ErrorCode.payment_declined = 0
code_index ErrorCode.out_of_stock = 1
code_index ErrorCode.insufficient_balance = 2
code_index ErrorCode.invalid_order = 3
code_index ErrorCode.order_not_found = 4
code_index ErrorCode.duplicate_request = 5
code_index ErrorCode.not_found = 6
code_index ErrorCode.conflict = 7
code_index ErrorCode.database_error = 8
code_index ErrorCode.network_error = 9
code_index ErrorCode.timeout_error = 10
code_index ErrorCode.serialization_error = 11
code_index ErrorCode.internal_error = 12
code_index ErrorCode.unknown_error = 13

is_retryable_code : ErrorCode → Bool
is_retryable_code ErrorCode.database_error = true
is_retryable_code ErrorCode.network_error = true
is_retryable_code ErrorCode.timeout_error = true
is_retryable_code _ = false

is_business_code : ErrorCode → Bool
is_business_code ErrorCode.payment_declined = true
is_business_code ErrorCode.out_of_stock = true
is_business_code ErrorCode.insufficient_balance = true
is_business_code ErrorCode.invalid_order = true
is_business_code ErrorCode.order_not_found = true
is_business_code ErrorCode.duplicate_request = true
is_business_code ErrorCode.not_found = true
is_business_code ErrorCode.conflict = true
is_business_code _ = false

unfoldable pub is_retryable : Error → Bool
unfolding domain_code is_retryable_code
is_retryable err = elim (domain_code err) [ some c ↦ is_retryable_code c | none ↦ false ]

unfoldable pub is_business_error : Error → Bool
unfolding domain_code is_business_code
is_business_error err = elim (domain_code err) [ some c ↦ is_business_code c | none ↦ false ]

unfoldable pub is_code : Error → ErrorCode → Bool
unfolding domain_code
is_code err code = elim (domain_code err) [
  | some c ↦ code_index c == code_index code
  | none ↦ false
]

-- `(*DomainError).Error`, and the text of the other shapes. The driver's own texts are the
-- server's and are left abstract, so they are given as an argument.
unfoldable pub error_text : (Error → Text) → Error → Text
unfolding code_text text
error_text driver_text (Error.new c m) = text "[" ++ (code_text c ++ (text "] " ++ m))
error_text driver_text (Error.wrap c m e) =
    text "[" ++ (code_text c ++ (text "] " ++ (m ++ (text ": " ++ error_text driver_text e))))
error_text driver_text (Error.errorf m) = m
error_text driver_text (Error.errorf_w m e) = m ++ (text ": " ++ error_text driver_text e)
error_text driver_text e = driver_text e
