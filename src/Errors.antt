-- ===== src/Errors.antt =====
-- include/mms/error/Error.hh and include/mms/error/CoreException.hh: the enumerations of errors, and
-- the exception that carries one of them and names it in its text. `CoreError` stands with the client.
pub mod Names
pub mod Tests
use Prim.Native.String.{String, ◌++◌}
use tradingmarketsimulator.Prelude.{ℕ}
use tradingmarketsimulator.Client.{CoreError}

-- `fiah::TcpError` as the switch tells its values apart: those that it names, and any other.
pub data TcpError : Type 0 where
  bad_socket bind_fail listen_fail connect_fail accept_fail send_fail recv_fail invalid_ip :
      TcpError
  unlisted : ℕ → TcpError

pub data Error : Type 0 where
  user_error config_error unknown_error init_error controller_error core_erorr thread_error : Error
  deserialize_error : Error

-- `std::variant<std::monostate, fiah::TcpError, CoreError, Error>`
pub data ErrorVariant : Type 0 where
  monostate : ErrorVariant
  tcp : TcpError → ErrorVariant
  core : CoreError → ErrorVariant
  error : Error → ErrorVariant

-- `enum_to_string`, of each of the enumerations
unfoldable pub tcp_to_string : TcpError → String
tcp_to_string TcpError.bad_socket = "fiah::TcpError::BAD_SOCKET"
tcp_to_string TcpError.bind_fail = "fiah::TcpError::BIND_FAIL"
tcp_to_string TcpError.listen_fail = "fiah::TcpError::LISTEN_FAIL"
tcp_to_string TcpError.connect_fail = "fiah::TcpError::CONNECT_FAIL"
tcp_to_string TcpError.accept_fail = "fiah::TcpError::ACCEPT_FAIL"
tcp_to_string TcpError.send_fail = "fiah::TcpError::SEND_FAIL"
tcp_to_string TcpError.recv_fail = "fiah::TcpError::RECV_FAIL"
tcp_to_string TcpError.invalid_ip = "fiah::TcpError::INVALID_IP"
tcp_to_string (TcpError.unlisted _) = "fiah::TcpError::UNKNOWN"

unfoldable pub core_to_string : CoreError → String
core_to_string CoreError.init_client_fail = "CoreError::INIT_CLIENT_FAIL"
core_to_string CoreError.server_not_online = "CoreError::SERVER_NOT_ONLINE"
core_to_string CoreError.init_server_fail = "CoreError::INIT_SERVER_FAIL"
core_to_string CoreError.invalid_state = "CoreError::INIT_SERVER_FAIL"

unfoldable pub error_to_string : Error → String
error_to_string Error.user_error = "Error::USER_ERROR"
error_to_string Error.config_error = "Error::CONFIG_ERROR"
error_to_string Error.unknown_error = "Error::UNKNOWN_ERROR"
error_to_string Error.init_error = "Error::INIT_ERROR"
error_to_string Error.controller_error = "Error::CONTROLLER_ERROR"
error_to_string Error.core_erorr = "Error::CORE_ERROR"
error_to_string Error.thread_error = "Error::THREAD_ERROR"
error_to_string Error.deserialize_error = "Error::DeserializeError"

unfoldable pub format_error : String → String → String
format_error message name = message ++ (" (" ++ (name ++ ")"))

pub record CoreException : Type 0 where
  pub what : String
  pub error_variant : ErrorVariant

-- The two constructors: with a message alone, and with an error of one of the enumerations
unfoldable pub construct_exception : String → ErrorVariant → CoreException
unfolding tcp_to_string core_to_string error_to_string format_error
construct_exception message ErrorVariant.monostate = record {
  what = message;
  error_variant = ErrorVariant.monostate;
}
construct_exception message (ErrorVariant.tcp e) = record {
  what = format_error message (tcp_to_string e);
  error_variant = ErrorVariant.tcp e;
}
construct_exception message (ErrorVariant.core e) = record {
  what = format_error message (core_to_string e);
  error_variant = ErrorVariant.core e;
}
construct_exception message (ErrorVariant.error e) = record {
  what = format_error message (error_to_string e);
  error_variant = ErrorVariant.error e;
}

unfoldable pub get_error : CoreException → ErrorVariant
get_error e = e.error_variant
