-- ===== src/Qqbot/Binding/Displayed.antt =====
-- auth.go: the URLs that `Connect` gives to its callback.
use gatus_qqbot.Base.{
  ℕ, zero, suc, Bool, true, false, List, [], ◌∷◌, Option, none, some, ◌⊎◌, inl, inr, ◌≡◌, refl,
  subst, get_elem?, some-inj,
}
use gatus_qqbot.Errors.{Error}
use gatus_qqbot.Qqbot.Binding.{
  Binding, bound, qr_expired, failed, polling, wait_for_binding, Round, Connected, Connector,
  after_binding, on_url, on_task, connect_rounds, connect,
}
use gatus_qqbot.Qqbot.ConnectUrl.{Page, build_connect_url}
use gatus_qqbot.Qqbot.ConnectUrl.Shown.{IsConnectUrl, build_connect_url-IsConnectUrl}
use gatus_qqbot.Qqbot.Exchange.{BindTask, create_bind_task}
use gatus_qqbot.Qqbot.Exchange.Whole.{IsCreated, create_bind_task-IsCreated}
use gatus_qqbot.Strings.{Text}

-- a round with a created task, and the URL made for it
abbrev pub IsDisplayed : Text → Page → Text → Round → Type 0
IsDisplayed source p url r =
    (t : BindTask) × (create_bind_task r.random r.http ≡ inr t)
    × IsCreated r.random t
    × IsConnectUrl p t.id source url

-- the URL at a place, with the round at that place
abbrev pub IsDisplayedAt : Text → Page → List Round → ℕ → Text → Type 0
IsDisplayedAt source p rs i url =
    (r : Round) × (get_elem? rs i ≡ some r) × IsDisplayed source p url r

-- every URL of a list
abbrev Displayed : Text → Page → List Round → List Text → Type 0
Displayed source p rs urls =
    (i : ℕ) (url : Text) → get_elem? urls i ≡ some url → IsDisplayedAt source p rs i url

Displayed-nil : (source : Text) (p : Page) (rs : List Round) → Displayed source p rs []
Displayed-nil source p rs i url h = absurd (cc)

Displayed-cons :
    (source : Text) (p : Page) (r : Round) (rs : List Round) (url : Text) (urls : List Text)
    → IsDisplayed source p url r
    → Displayed source p rs urls
    → Displayed source p (r ∷ rs) (url ∷ urls)
Displayed-cons source p r rs url urls d ds zero u h =
    (r, refl, subst (λ v. IsDisplayed source p v r) (some-inj h) d)
Displayed-cons source p r rs url urls d ds (suc i) u h = ds i u h

module _ (k : Connector) (p : Page) where
  after_binding-Displayed :
      (r : Round) (rs : List Round) (url : Text) (b : Binding) (rest : Connected)
      → IsDisplayed k.source p url r
      → Displayed k.source p rs rest.shown
      → Displayed k.source p (r ∷ rs) (after_binding url b rest).shown
  unfolding after_binding
  after_binding-Displayed r rs url qr_expired rest d ds =
      Displayed-cons k.source p r rs url rest.shown d ds
  after_binding-Displayed r rs url (bound c) rest d ds =
      Displayed-cons k.source p r rs url [] d (Displayed-nil k.source p rs)
  after_binding-Displayed r rs url (failed e) rest d ds =
      Displayed-cons k.source p r rs url [] d (Displayed-nil k.source p rs)
  after_binding-Displayed r rs url polling rest d ds =
      Displayed-cons k.source p r rs url [] d (Displayed-nil k.source p rs)

  on_url-Displayed :
      (r : Round) (rs : List Round) (t : BindTask) (o : Error ⊎ Text) (rest : Connected)
      → create_bind_task r.random r.http ≡ inr t
      → ((url : Text) → o ≡ inr url → IsConnectUrl p t.id k.source url)
      → Displayed k.source p rs rest.shown
      → Displayed k.source p (r ∷ rs) (on_url k.crypto t.key r.polls o rest).shown
  unfolding on_url
  on_url-Displayed r rs t (inl e) rest m f ds = Displayed-nil k.source p (r ∷ rs)
  on_url-Displayed r rs t (inr url) rest m f ds =
      after_binding-Displayed r rs url (wait_for_binding k.crypto t.key r.polls) rest
        (t, m, create_bind_task-IsCreated r.random r.http t m, f url refl) ds

  on_task-Displayed :
      k.page ≡ inr p
      → p.query ≡ []
      → (r : Round) (rs : List Round) (o : Error ⊎ BindTask) (rest : Connected)
      → create_bind_task r.random r.http ≡ o
      → Displayed k.source p rs rest.shown
      → Displayed k.source p (r ∷ rs) (on_task k r.polls o rest).shown
  unfolding on_task
  on_task-Displayed e q r rs (inl err) rest m ds = Displayed-nil k.source p (r ∷ rs)
  on_task-Displayed e q r rs (inr t) rest m ds =
      on_url-Displayed r rs t (build_connect_url k.page t.id k.source) rest m
        (λ url h.
          build_connect_url-IsConnectUrl p t.id k.source url q
            (subst (λ x. build_connect_url x t.id k.source ≡ inr url) e h))
        ds

  connect_rounds-Displayed :
      k.page ≡ inr p
      → p.query ≡ []
      → (rs : List Round) → Displayed k.source p rs (connect_rounds k rs).shown
  unfolding connect_rounds
  connect_rounds-Displayed e q [] = Displayed-nil k.source p []
  connect_rounds-Displayed e q (r ∷ rs) =
      on_task-Displayed e q r rs (create_bind_task r.random r.http) (connect_rounds k rs) refl
        (connect_rounds-Displayed e q rs)

  -- Where the connect page is parsed and has no query of its own, the i-th URL that `Connect` shows is that
  -- of the i-th round: its task was created, with an id that is not blank and the first 32 bytes of the
  -- random source as its key, and the query of the URL reads back as the version 2, the source and
  -- this id.
  pub connect-IsDisplayedAt :
      k.page ≡ inr p
      → p.query ≡ []
      → (ended : Option Error) (ready : Bool) (rs : List Round) (i : ℕ) (url : Text)
      → get_elem? (connect ended ready k rs).shown i ≡ some url
      → IsDisplayedAt k.source p rs i url
  unfolding connect
  connect-IsDisplayedAt e q (some err) ready rs = Displayed-nil k.source p rs
  connect-IsDisplayedAt e q none true rs = connect_rounds-Displayed e q rs
  connect-IsDisplayedAt e q none false rs = Displayed-nil k.source p rs
