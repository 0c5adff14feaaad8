-- ===== src/Errors.antt =====
-- Go's error values: sentinels that errors.Is and errors.As look for (internal/delivery/errors.go
-- among them), texts, `%w` at the end of a format, and errors.Join. `nil` is `none`. A join of one
-- error is that error: the program reads a join by errors.Is and Error() alone.
use gatus_qqbot.Base.{
  Bool, true, false, ◌||◌, List, [], ◌∷◌, ◌++◌, Option, none, some, ◌≡◌, refl, arith,
}
use gatus_qqbot.Strings.{Text, codes, newline}

pub data Sentinel : Type 0 where
  canceled deadline_exceeded queue_full body_too_large eof server_closed : Sentinel

pub data Error : Type 0 where
  sentinel : Sentinel → Error
  message : Text → Error
  wrap : Text → Error → Error
  both : Error → Error → Error

unfoldable pub same_sentinel : Sentinel → Sentinel → Bool
same_sentinel canceled canceled = true
same_sentinel deadline_exceeded deadline_exceeded = true
same_sentinel queue_full queue_full = true
same_sentinel body_too_large body_too_large = true
same_sentinel eof eof = true
same_sentinel server_closed server_closed = true
same_sentinel _ _ = false

-- errors.Is(e, s)
unfoldable pub is : Sentinel → Error → Bool
unfolding same_sentinel
is s (sentinel t) = same_sentinel s t
is s (message t) = false
is s (wrap t e) = is s e
is s (both e f) = is s e || is s f

unfoldable pub sentinel_text : Sentinel → Text
sentinel_text canceled = codes "context canceled"
sentinel_text deadline_exceeded = codes "context deadline exceeded"
sentinel_text queue_full = codes "QQ alert delivery queue is full"
sentinel_text body_too_large = codes "http: request body too large"
sentinel_text eof = codes "EOF"
sentinel_text server_closed = codes "http: Server closed"

-- e.Error()
unfoldable pub error_text : Error → Text
unfolding sentinel_text
error_text (sentinel s) = sentinel_text s
error_text (message t) = t
error_text (wrap t e) = t ++ error_text e
error_text (both e f) = error_text e ++ (newline ∷ error_text f)

-- errors.Join(a, b)
unfoldable pub join_two : Option Error → Option Error → Option Error
join_two none f = f
join_two (some e) none = some e
join_two (some e) (some f) = some (both e f)

-- errors.Join(errs...)
unfoldable pub join_errors : List Error → Option Error
unfolding join_two
join_errors [] = none
join_errors (e ∷ es) = join_two (some e) (join_errors es)

-- whether some error of a list is `s`
unfoldable pub any_is : Sentinel → List Error → Bool
unfolding is
any_is s [] = false
any_is s (e ∷ es) = is s e || any_is s es

unfoldable pub is_error : Sentinel → Option Error → Bool
unfolding is
is_error s none = false
is_error s (some e) = is s e

pub join_errors-eq-none : (es : List Error) → join_errors es ≡ none → es ≡ []
unfolding join_errors
join_errors-eq-none [] h = refl
join_errors-eq-none (e ∷ es) h = ground arith

pub is_error-join_errors :
    (s : Sentinel) (es : List Error) → is_error s (join_errors es) ≡ any_is s es
unfolding is_error any_is join_errors
is_error-join_errors s [] = refl
is_error-join_errors s (e ∷ es) = ground (arith, is_error-join_errors s es)

pub any_is-append :
    (s : Sentinel) (es fs : List Error) → any_is s (es ++ fs) ≡ (any_is s es || any_is s fs)
unfolding any_is
any_is-append s [] fs = refl
any_is-append s (e ∷ es) fs = ground (arith, any_is-append s es fs)
