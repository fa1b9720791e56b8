-- ===== src/Handler/Calls.antt =====
-- What `call_handler` does to the database, and how the SQLSTATE of a failed call is classified.
use pg_web.Common.{
  ◌≡◌, ◌↔◌, ◌⊎◌, inl, inr, refl, true, false, Option, Text, codes, same, same_iff, arith, Bool,
}
use pg_web.Common.Result.{Result, ok, err}
use pg_web.Json.{Value}
use pg_web.Errors.{code}
use pg_web.Pattern.{quote_literal, is_safe_ident}
use pg_web.Backend.{Backend}
use pg_web.Cache.{Worker}
use pg_web.Handler.{classify_handler_error, call_with_json, call_handler}

timeout_only :
    (name sqlstate message : Text) (detail hint context : Option Text) (req : Value)
    (timeout : Option Text)
    → code (classify_handler_error name sqlstate message detail hint context req timeout)
      ≡ codes "PGWEB_E009_REQUEST_TIMEOUT"
    → sqlstate ≡ codes "57014"
unfolding classify_handler_error code
timeout_only name sqlstate message detail hint context req timeout h =
    ground (arith, same_iff sqlstate (codes "57014"))

-- A failed call is reported as a timeout exactly when its SQLSTATE is 57014 (query_canceled).
pub classify_handler_error-timeout :
    (name sqlstate message : Text) (detail hint context : Option Text) (req : Value)
    (timeout : Option Text)
    → (code (classify_handler_error name sqlstate message detail hint context req timeout)
        ≡ codes "PGWEB_E009_REQUEST_TIMEOUT")
      ↔ (sqlstate ≡ codes "57014")
unfolding classify_handler_error code same
classify_handler_error-timeout name sqlstate message detail hint context req timeout =
    (timeout_only name sqlstate message detail hint context req timeout, λ e. rw e refl)

module _ {Db Tera : Type 0} (b : Backend Db Tera) (debug : Text → Text) where
  -- `call_handler` leaves the worker as it was, or changes its database by one call of the
  -- framework's wrapper, with the quoted name of a handler that is a safe identifier and the quoted
  -- JSON of the request.
  pub call_handler-once :
      (name : Text) (req : Value) (w : Worker Db Tera)
      → ((call_handler b debug name req w).1 ≡ w)
        ⊎ ((json : Text) × (is_safe_ident name ≡ true)
            × (b.print_json req ≡ ok json)
            × ((call_handler b debug name req w).1.db
                ≡ (b.framework_call (quote_literal name) (quote_literal json) w.db).1))
  unfolding call_handler call_with_json
  call_handler-once name req w = go (is_safe_ident name) (b.print_json req) refl refl
    where
      go :
          (safe : Bool) (printed : Result Text Text)
          → is_safe_ident name ≡ safe
          → b.print_json req ≡ printed
          → ((call_handler b debug name req w).1 ≡ w)
            ⊎ ((json : Text) × (is_safe_ident name ≡ true)
                × (b.print_json req ≡ ok json)
                × ((call_handler b debug name req w).1.db
                    ≡ (b.framework_call (quote_literal name) (quote_literal json) w.db).1))
      go false printed unsafe _ = inl (rw unsafe refl)
      go true (err e) safe printed = inl (rw safe (rw printed refl))
      go true (ok json) safe printed = inr (json, safe, printed, rw safe (rw printed refl))
