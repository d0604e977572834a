-- ===== src/Errors/Names.antt =====
-- Which errors the text of an exception tells apart.
use Prim.Native.String.{String, ◌++◌}
use text.Mathlib.Text.{◌==◌}
use text.Mathlib.TextLemmas.{append_cancel_left, append-nil}
use tradingmarketsimulator.Prelude.{◌≡◌, refl, sym, ap, ◌∙◌, ◌↔◌, List, [], ◌∷◌, if◌then◌else◌}
use tradingmarketsimulator.Client.{CoreError}
use tradingmarketsimulator.Errors.{
  TcpError, Error, ErrorVariant, tcp_to_string, core_to_string, error_to_string, format_error,
  construct_exception, get_error,
}

-- What the text calls an error: INVALID_STATE is called INIT_SERVER_FAIL, and the values of `TcpError`
-- that have no name are one.
abbrev pub called : ErrorVariant → ErrorVariant
called (ErrorVariant.core CoreError.invalid_state) = ErrorVariant.core CoreError.init_server_fail
called (ErrorVariant.tcp (TcpError.unlisted _)) = ErrorVariant.tcp (TcpError.unlisted 0)
called e = e

-- What follows the message
suffix : ErrorVariant → String
unfolding tcp_to_string core_to_string error_to_string
suffix ErrorVariant.monostate = ""
suffix (ErrorVariant.tcp e) = " (" ++ (tcp_to_string e ++ ")")
suffix (ErrorVariant.core e) = " (" ++ (core_to_string e ++ ")")
suffix (ErrorVariant.error e) = " (" ++ (error_to_string e ++ ")")

all_called : List ErrorVariant
all_called =
    ErrorVariant.tcp TcpError.bad_socket
    ∷ ErrorVariant.tcp TcpError.bind_fail
    ∷ ErrorVariant.tcp TcpError.listen_fail
    ∷ ErrorVariant.tcp TcpError.connect_fail
    ∷ ErrorVariant.tcp TcpError.accept_fail
    ∷ ErrorVariant.tcp TcpError.send_fail
    ∷ ErrorVariant.tcp TcpError.recv_fail
    ∷ ErrorVariant.tcp TcpError.invalid_ip
    ∷ ErrorVariant.tcp (TcpError.unlisted 0)
    ∷ ErrorVariant.core CoreError.init_client_fail
    ∷ ErrorVariant.core CoreError.server_not_online
    ∷ ErrorVariant.core CoreError.init_server_fail
    ∷ ErrorVariant.error Error.user_error
    ∷ ErrorVariant.error Error.config_error
    ∷ ErrorVariant.error Error.unknown_error
    ∷ ErrorVariant.error Error.init_error
    ∷ ErrorVariant.error Error.controller_error
    ∷ ErrorVariant.error Error.core_erorr
    ∷ ErrorVariant.error Error.thread_error
    ∷ ErrorVariant.error Error.deserialize_error
    ∷ []

-- The first error of a list that has this suffix
named_by : String → List ErrorVariant → ErrorVariant
unfolding suffix
named_by s [] = ErrorVariant.monostate
named_by s (e ∷ es) = let rest = named_by s es in if suffix e == s then e else rest

named_by-suffix : (e : ErrorVariant) → named_by (suffix e) all_called ≡ called e
unfolding named_by all_called
named_by-suffix ErrorVariant.monostate = refl
named_by-suffix (ErrorVariant.tcp TcpError.bad_socket) = refl
named_by-suffix (ErrorVariant.tcp TcpError.bind_fail) = refl
named_by-suffix (ErrorVariant.tcp TcpError.listen_fail) = refl
named_by-suffix (ErrorVariant.tcp TcpError.connect_fail) = refl
named_by-suffix (ErrorVariant.tcp TcpError.accept_fail) = refl
named_by-suffix (ErrorVariant.tcp TcpError.send_fail) = refl
named_by-suffix (ErrorVariant.tcp TcpError.recv_fail) = refl
named_by-suffix (ErrorVariant.tcp TcpError.invalid_ip) = refl
named_by-suffix (ErrorVariant.tcp (TcpError.unlisted n)) = refl
named_by-suffix (ErrorVariant.core CoreError.init_client_fail) = refl
named_by-suffix (ErrorVariant.core CoreError.server_not_online) = refl
named_by-suffix (ErrorVariant.core CoreError.init_server_fail) = refl
named_by-suffix (ErrorVariant.core CoreError.invalid_state) = refl
named_by-suffix (ErrorVariant.error Error.user_error) = refl
named_by-suffix (ErrorVariant.error Error.config_error) = refl
named_by-suffix (ErrorVariant.error Error.unknown_error) = refl
named_by-suffix (ErrorVariant.error Error.init_error) = refl
named_by-suffix (ErrorVariant.error Error.controller_error) = refl
named_by-suffix (ErrorVariant.error Error.core_erorr) = refl
named_by-suffix (ErrorVariant.error Error.thread_error) = refl
named_by-suffix (ErrorVariant.error Error.deserialize_error) = refl

suffix-called : (e : ErrorVariant) → suffix (called e) ≡ suffix e
unfolding suffix
suffix-called ErrorVariant.monostate = refl
suffix-called (ErrorVariant.tcp TcpError.bad_socket) = refl
suffix-called (ErrorVariant.tcp TcpError.bind_fail) = refl
suffix-called (ErrorVariant.tcp TcpError.listen_fail) = refl
suffix-called (ErrorVariant.tcp TcpError.connect_fail) = refl
suffix-called (ErrorVariant.tcp TcpError.accept_fail) = refl
suffix-called (ErrorVariant.tcp TcpError.send_fail) = refl
suffix-called (ErrorVariant.tcp TcpError.recv_fail) = refl
suffix-called (ErrorVariant.tcp TcpError.invalid_ip) = refl
suffix-called (ErrorVariant.tcp (TcpError.unlisted n)) = refl
suffix-called (ErrorVariant.core CoreError.init_client_fail) = refl
suffix-called (ErrorVariant.core CoreError.server_not_online) = refl
suffix-called (ErrorVariant.core CoreError.init_server_fail) = refl
suffix-called (ErrorVariant.core CoreError.invalid_state) = refl
suffix-called (ErrorVariant.error e) = refl

what-suffix : (m : String) (e : ErrorVariant) → (construct_exception m e).what ≡ m ++ suffix e
unfolding construct_exception suffix format_error
what-suffix m ErrorVariant.monostate = sym (append-nil m)
what-suffix m (ErrorVariant.tcp e) = refl
what-suffix m (ErrorVariant.core e) = refl
what-suffix m (ErrorVariant.error e) = refl

get_error-construct_exception :
    (m : String) (e : ErrorVariant) → get_error (construct_exception m e) ≡ e
unfolding get_error construct_exception
get_error-construct_exception m ErrorVariant.monostate = refl
get_error-construct_exception m (ErrorVariant.tcp e) = refl
get_error-construct_exception m (ErrorVariant.core e) = refl
get_error-construct_exception m (ErrorVariant.error e) = refl

-- The text of an exception tells apart just the errors that `called` does, an exception without an
-- error among them: all but INVALID_STATE and INIT_SERVER_FAIL, and the values of `TcpError` that the
-- switch does not list. `get_error` gives the error itself back.
pub what_iff :
    (m : String) (e f : ErrorVariant)
    → (((construct_exception m e).what ≡ (construct_exception m f).what) ↔ (called e ≡ called f))
      × (get_error (construct_exception m e) ≡ e)
what_iff m e f = (
  (
    λ h.
        let same : suffix e ≡ suffix f =
          append_cancel_left m (suffix e) (suffix f)
            (sym (what-suffix m e) ∙ h ∙ what-suffix m f) in
        sym (named_by-suffix e) ∙ ap (λ s. named_by s all_called) same ∙ named_by-suffix f,
    λ h.
        let same : suffix e ≡ suffix f = sym (suffix-called e) ∙ ap suffix h ∙ suffix-called f in
        what-suffix m e ∙ ap (λ s. m ++ s) same ∙ sym (what-suffix m f),
  ),
  get_error-construct_exception m e,
)
