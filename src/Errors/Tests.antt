-- ===== src/Errors/Tests.antt =====
-- The theorem on the errors, applied to the exception that the core throws.
use tradingmarketsimulator.Prelude.{◌≡◌, ◌↔◌}
use tradingmarketsimulator.Client.{CoreError}
use tradingmarketsimulator.Errors.{ErrorVariant, construct_exception, get_error}
use tradingmarketsimulator.Errors.Names.{called, what_iff}

what_iff_example :
    let thrown =
      construct_exception "FATAL: p_config is null" (ErrorVariant.core CoreError.invalid_state) in
    let other =
      construct_exception "FATAL: p_config is null"
        (ErrorVariant.core CoreError.init_server_fail) in
    ((thrown.what ≡ other.what) ↔ (
      called (ErrorVariant.core CoreError.invalid_state)
      ≡ called (ErrorVariant.core CoreError.init_server_fail)))
    × (get_error thrown ≡ ErrorVariant.core CoreError.invalid_state)
what_iff_example =
    what_iff "FATAL: p_config is null" (ErrorVariant.core CoreError.invalid_state)
      (ErrorVariant.core CoreError.init_server_fail)
