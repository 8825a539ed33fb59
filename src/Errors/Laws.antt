-- ===== src/Errors/Laws.antt =====
-- Which handlers take an exception.
use vqro.Base.{true, ◌≡◌, ◌↔◌, refl}
use vqro.Errors.{
  ErrorClass, error, io_error, worker_thread_too_busy, sqlite_error, database_error,
  invalid_series_proto, is_a, Error, log_and_throw,
}

-- LogAndThrow loses the class: only a handler for Error takes what it throws.
log_and_throw-is_a :
    (e : Error) (handler : ErrorClass)
    → (is_a (log_and_throw e).kind handler ≡ true) ↔ (handler ≡ error)
unfolding is_a log_and_throw
log_and_throw-is_a e error = (λ h. refl, λ h. refl)
log_and_throw-is_a e io_error = (λ h. cc, λ h. cc)
log_and_throw-is_a e worker_thread_too_busy = (λ h. cc, λ h. cc)
log_and_throw-is_a e sqlite_error = (λ h. cc, λ h. cc)
log_and_throw-is_a e database_error = (λ h. cc, λ h. cc)
log_and_throw-is_a e invalid_series_proto = (λ h. cc, λ h. cc)
