-- ===== src/Error/Handlers.antt =====
-- How the error handlers differ.
use underling.Common.{◌≡◌, refl, String}
use underling.Machine.{World, ok, ◌>>=◌, ◌>>◌, no_error_handler}
use underling.Error.Defs.{Status, error, set_error_handler, set_error_handler_off, reporting}

-- With the handlers off an error leaves no trace, and putting back the handler that switching off
-- returned restores the world as it was.
pub error-set_error_handler_off :
    (reason : String) (e : Status) (w : World)
    → (do h ← set_error_handler_off; error reason e; set_error_handler h) w ≡ ok no_error_handler w
unfolding set_error_handler set_error_handler_off reporting
error-set_error_handler_off reason e w = refl
