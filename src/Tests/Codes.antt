-- ===== src/Tests/Codes.antt =====
-- The code of an expired result.
use slugaudit.Base.{◌≡◌, ◌↔◌}
use slugaudit.ResultStore.Cell.{StoreError}
use slugaudit.ErrorCodes.{ErrorCode, payload, store_error}
use slugaudit.ErrorCodes.Codes.{Names, store_error_iff}

store_error_iff_example :
    ((store_error StoreError.expired).data_value ≡ payload ErrorCode.result_expired)
    ↔ Names ErrorCode.result_expired StoreError.expired
store_error_iff_example = store_error_iff StoreError.expired ErrorCode.result_expired
