-- ===== src/Config/Accepted.antt =====
-- config.go: what ValidateServe accepts.
use gatus_qqbot.Base.{
  ℕ, suc, Bool, true, false, ◌&&◌, ◌||◌, not, List, [], ◌∷◌, Option, none, some, ◌≡◌, ◌↔◌, refl, ap,
  ||_eq_false, arith, All,
}
use gatus_qqbot.Config.{
  is_below, is_above, TargetConfig, ServerConfig, Config, Parsers, check, append_error, is_blank,
  is_padded, validate_credentials, has_any, is_newline, valid_http_path, is_loopback_address,
  validate_target, validate_log, target_key, has_key, check_target, seen_after, check_targets,
  has_no_targets, timeout_error,
}
use gatus_qqbot.Errors.{Error, join_errors, join_errors-eq-none}
use gatus_qqbot.Strings.{Text, codes}
use gatus_qqbot.Config.Serve.{serve_rule, check_server, check_qq, serve_errors, validate_serve}
use gatus_qqbot.Strings.{text_eq}

pub check-nil :
    (b : Bool) (e : Error) (rest : List Error) → (check b e rest ≡ []) ↔ ((b ≡ false) × (rest ≡ []))
check-nil true e rest = (λ h. absurd (cc), λ h. absurd (cc h.0))
check-nil false e rest = (λ h. (refl, h), λ h. h.1)

append_error-nil :
    (o : Option Error) (rest : List Error) → (append_error o rest ≡ []) ↔ ((o ≡ none) × (rest ≡ []))
unfolding append_error
append_error-nil none rest = (λ h. (refl, h), λ h. h.1)
append_error-nil (some e) rest = (λ h. absurd (cc), λ h. absurd (cc h.0))

abbrev pub IsServer : Parsers → ServerConfig → Type 0
IsServer p s =
    (has_any is_newline s.address ≡ false)
    × (is_padded s.address ≡ false)
    × (is_padded s.auth_token ≡ false)
    × ((is_blank s.auth_token && not (is_loopback_address p s.address)) ≡ false)
    × ((is_below s.port 1 || is_above s.port 65535) ≡ false)
    × (not (valid_http_path p s.alert_path) ≡ false)
    × (is_below s.max_body_bytes 1 ≡ false)
    × (timeout_error p (codes "server.shutdown_timeout") s.shutdown_timeout ≡ none)

check_server-nil :
    (p : Parsers) (s : ServerConfig) (rest : List Error)
    → (check_server p s rest ≡ []) ↔ (IsServer p s × (rest ≡ []))
unfolding check_server
check_server-nil p s rest = (
  λ h.
      let (a, h1) = (check-nil _ _ _).0 h in
      let (b, h2) = (check-nil _ _ _).0 h1 in
      let (c, h3) = (check-nil _ _ _).0 h2 in
      let (d, h4) = (check-nil _ _ _).0 h3 in
      let (e, h5) = (check-nil _ _ _).0 h4 in
      let (f, h6) = (check-nil _ _ _).0 h5 in
      let (g, h7) = (check-nil _ _ _).0 h6 in
      let (i, h8) = (append_error-nil _ _).0 h7 in ((a, b, c, d, e, f, g, i), h8),
  λ ((a, b, c, d, e, f, g, i), h). (check-nil _ _ _).1 (
    a,
    (check-nil _ _ _).1 (
      b,
      (check-nil _ _ _).1 (
        c,
        (check-nil _ _ _).1 (
          d,
          (check-nil _ _ _).1 (
            e,
            (check-nil _ _ _).1 (f, (check-nil _ _ _).1 (g, (append_error-nil _ _).1 (i, h))),
          ),
        ),
      ),
    ),
  ),
)

abbrev pub IsQq : Parsers → Config → Type 0
IsQq p c =
    (timeout_error p (codes "qq.request_timeout") c.qq.request_timeout ≡ none)
    × (timeout_error p (codes "qq.delivery_timeout") c.qq.delivery_timeout ≡ none)
    × ((is_below c.qq.max_pending_alerts 0 || is_above c.qq.max_pending_alerts 10_000) ≡ false)
    × (timeout_error p (codes "qq.gateway_ready_timeout") c.qq.gateway_ready_timeout ≡ none)
    × (is_below c.message.max_length 64 ≡ false)

check_qq-nil :
    (p : Parsers) (c : Config) (rest : List Error)
    → (check_qq p c rest ≡ []) ↔ (IsQq p c × (rest ≡ []))
unfolding check_qq
check_qq-nil p c rest = (
  λ h.
      let (a, h1) = (append_error-nil _ _).0 h in
      let (b, h2) = (append_error-nil _ _).0 h1 in
      let (d, h3) = (check-nil _ _ _).0 h2 in
      let (e, h4) = (append_error-nil _ _).0 h3 in
      let (f, h5) = (check-nil _ _ _).0 h4 in ((a, b, d, e, f), h5),
  λ ((a, b, d, e, f), h). (append_error-nil _ _).1 (
    a,
    (append_error-nil _ _).1
        (b, (check-nil _ _ _).1 (d, (append_error-nil _ _).1 (e, (check-nil _ _ _).1 (f, h)))),
  ),
)

-- no two targets have the same key
abbrev pub IsDistinct : List TargetConfig → Type 0
IsDistinct [] = Unit
IsDistinct (t ∷ ts) =
    All (λ (u : TargetConfig). text_eq (target_key t) (target_key u) ≡ false) ts × IsDistinct ts

abbrev pub IsTarget : TargetConfig → Type 0
IsTarget t = validate_target t ≡ none

abbrev IsUnseen : List Text → TargetConfig → Type 0
IsUnseen seen u = has_key seen (target_key u) ≡ false

All-split :
    {A : Type 0} (f g : A → Bool) (xs : List A)
    → All (λ x. (f x || g x) ≡ false) xs ↔ (All (λ x. f x ≡ false) xs × All (λ x. g x ≡ false) xs)
All-split f g [] = (λ h. (tt, tt), λ h. tt)
All-split f g (x ∷ xs) = (
  λ h.
      let (a, b) = ||_eq_false (f x) (g x) h.0 in
      let (c, d) = (All-split f g xs).0 h.1 in ((a, c), (b, d)),
  λ ((a, c), (b, d)). (rw (a, b) refl, (All-split f g xs).1 (c, d)),
)

abbrev AreTargets : List Text → List TargetConfig → List Error → Type 0
AreTargets seen ts rest = All IsTarget ts × All (IsUnseen seen) ts × IsDistinct ts × (rest ≡ [])

module _ (t : TargetConfig) (ts : List TargetConfig) (seen : List Text) (rest : List Error) where
  IsUnseen-split : All (IsUnseen (target_key t ∷ seen)) ts ↔ (
      All (λ (u : TargetConfig). text_eq (target_key t) (target_key u) ≡ false) ts
      × All (IsUnseen seen) ts)
  unfolding has_key
  IsUnseen-split =
      All-split (λ u. text_eq (target_key t) (target_key u)) (λ u. has_key seen (target_key u)) ts

  cons-AreTargets :
      (i : ℕ) (o : Option Error)
      → validate_target t ≡ o
      → ((check_targets (suc i) (target_key t ∷ seen) ts rest ≡ [])
          ↔ AreTargets (target_key t ∷ seen) ts rest)
      → (check_target i seen t o (check_targets (suc i) (seen_after seen t o) ts rest) ≡ [])
        ↔ AreTargets seen (t ∷ ts) rest
  unfolding check_target seen_after
  cons-AreTargets i (some e) q ih = (λ h. absurd (cc), λ h. absurd (ground (arith, q, h.0.0)))
  cons-AreTargets i none q ih = (
    λ h.
        let (u, h1) = (check-nil _ _ _).0 h in
        let (v, us, d, r) = ih.0 h1 in
        let (k, us') = IsUnseen-split.0 us in ((q, v), (u, us'), (k, d), r),
    λ ((_, v), (u, us'), (k, d), r).
        (check-nil _ _ _).1 (u, ih.1 (v, IsUnseen-split.1 (k, us'), d, r)),
  )

check_targets-nil :
    (i : ℕ) (seen : List Text) (ts : List TargetConfig) (rest : List Error)
    → (check_targets i seen ts rest ≡ []) ↔ AreTargets seen ts rest
unfolding check_targets
check_targets-nil i seen [] rest = (λ h. (tt, tt, tt, h), λ (a, b, c, h). h)
check_targets-nil i seen (t ∷ ts) rest =
    cons-AreTargets t ts seen rest i (validate_target t) refl
      (check_targets-nil (suc i) (target_key t ∷ seen) ts rest)

none-IsUnseen : (ts : List TargetConfig) → All (IsUnseen []) ts
unfolding has_key
none-IsUnseen [] = tt
none-IsUnseen (t ∷ ts) = (refl, none-IsUnseen ts)

-- a configuration that can be served
abbrev pub IsServed : Parsers → Config → Type 0
IsServed p c =
    (validate_credentials c.qq ≡ none)
    × IsServer p c.server
    × IsQq p c
    × (has_no_targets c.qq.targets ≡ false)
    × All IsTarget c.qq.targets
    × IsDistinct c.qq.targets
    × (validate_log c.log ≡ none)

abbrev no_targets : Error
no_targets = serve_rule "qq.targets must contain at least one destination"

serve_errors-nil : (p : Parsers) (c : Config) → (serve_errors p c ≡ []) ↔ IsServed p c
unfolding serve_errors
serve_errors-nil p c = (
  λ h.
      let (a, h1) = (append_error-nil _ _).0 h in
      let (b, h2) = (check_server-nil p c.server _).0 h1 in
      let (d, h3) = (check_qq-nil p c _).0 h2 in
      let (e, h4) = (check-nil (has_no_targets c.qq.targets) no_targets _).0 h3 in
      let (f, _, g, h5) =
        (check_targets-nil 0 [] c.qq.targets (append_error (validate_log c.log) [])).0 h4 in
      (a, b, d, e, f, g, ((append_error-nil (validate_log c.log) []).0 h5).0),
  λ (a, b, d, e, f, g, l). (append_error-nil _ _).1 (
    a,
    (check_server-nil p c.server _).1 (
      b,
      (check_qq-nil p c _).1 (
        d,
        (check-nil (has_no_targets c.qq.targets) no_targets _).1 (
          e,
          (check_targets-nil 0 [] c.qq.targets (append_error (validate_log c.log) [])).1 (
            f,
            none-IsUnseen c.qq.targets,
            g,
            (append_error-nil (validate_log c.log) []).1 (l, refl),
          ),
        ),
      ),
    ),
  ),
)

-- ValidateServe accepts a configuration exactly when its credentials and its log section are valid;
-- the listening address, the token, the port, the alert path, the body limit and the shutdown
-- timeout are; the other timeouts, the number of pending alerts and the message's length are; and
-- there are targets, each of them valid, and no two of them with the same type and id.
pub validate_serve_iff : (p : Parsers) (c : Config) → (validate_serve p c ≡ none) ↔ IsServed p c
unfolding validate_serve
validate_serve_iff p c = (
  λ h. (serve_errors-nil p c).0 (join_errors-eq-none _ h),
  λ h. unfold join_errors in ap join_errors ((serve_errors-nil p c).1 h),
)
