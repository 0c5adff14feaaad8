-- ===== src/Qqbot/Binding/Tests.antt =====
-- auth.go at a concrete exchange.
use gatus_qqbot.Base.{ℕ, true, List, [], ◌∷◌, none, some, inl, inr, ◌≡◌, refl, ap, get_elem?}
use gatus_qqbot.Config.{pos, negsuc, digits, int_text}
use gatus_qqbot.Errors.{message}
use gatus_qqbot.Qqbot.Binding.{
  QrCredentials, PollResponse, on_polled, Poll, bound, Round, Connector, connect,
}
use gatus_qqbot.Qqbot.Binding.Bound.{IsBoundAt, connect-IsBoundAt}
use gatus_qqbot.Qqbot.Binding.Displayed.{IsDisplayedAt, connect-IsDisplayedAt}
use gatus_qqbot.Qqbot.ConnectUrl.{Page}
use gatus_qqbot.Qqbot.Exchange.{
  Http, default_max_response_size, bind_api_error, is_zero, CreateResponse, Random,
}
use gatus_qqbot.Qqbot.Secret.{Crypto}
use gatus_qqbot.Strings.{
  Text, codes, is_empty, is_space, trim_left, trim_right, trim_space, valid_string, text_eq, join,
}
use gatus_qqbot.Url.{escape_bytes}

abbrev zeros : List ℕ
zeros =
    0 ∷ 0 ∷ 0 ∷ 0 ∷ 0 ∷ 0 ∷ 0 ∷ 0 ∷ 0 ∷ 0 ∷ 0 ∷ 0 ∷ 0 ∷ 0 ∷ 0 ∷ 0 ∷ 0 ∷ 0 ∷ 0 ∷ 0 ∷ 0 ∷ 0 ∷ 0 ∷ 0
    ∷ 0 ∷ 0 ∷ 0 ∷ 0 ∷ 0 ∷ 0 ∷ 0 ∷ 0 ∷ []

-- Every ciphertext decodes to 32 bytes and opens to one secret.
abbrev pub crypto : Crypto
crypto = record { decode = (λ s. some zeros); open_gcm = (λ k n s. some (codes "secret")) }

-- an exchange of status 200 with this response
abbrev http_of {ℓ} : {A : Type ℓ} → A → Http A
http_of a = record {
  encode_error = none;
  request_error = none;
  sent = inr (record { status = 200; body = 123 ∷ 125 ∷ []; body_error = none });
  ended = none;
  decode = λ bytes. inr a;
  max_response_bytes = default_max_response_size;
}

abbrev response_of : ℕ → PollResponse
response_of status = record {
  ret_code = some (pos 0);
  msg = [];
  poll_data = some (record {
    status = some (pos status);
    bot_app_id = codes "102";
    bot_encrypted_secret = codes "AA==";
    user_open_id = codes "u";
  });
}

abbrev poll_of : ℕ → Poll
poll_of status = record {
  exchange = http_of (response_of status);
  ended = none;
  fires = true;
  ended_late = none;
}

abbrev random : Random
random = record { bytes = zeros; failure = message (codes "EOF") }

abbrev created : Text → Http CreateResponse
created id = http_of (record { ret_code = some (pos 0); msg = []; task_id = some id })

abbrev pub page : Page
page = record { scheme = codes "https"; before = codes "https://q"; query = []; after = [] }

abbrev connector : Connector
connector = record { crypto = crypto; page = inr page; source = codes "a b" }

-- the first QR code expires, the second one is scanned
abbrev pub rounds : List Round
rounds =
    record {
      random = random;
      http = λ key. created (codes "t&1");
      polls = poll_of 1 ∷ poll_of 3 ∷ [];
    }
    ∷ record {
      random = random;
      http = λ key. created (codes "t2");
      polls = poll_of 0 ∷ poll_of 2 ∷ [];
    }
    ∷ []

abbrev credentials : QrCredentials
credentials = record { app_id = codes "102"; app_secret = codes "secret"; user_open_id = codes "u" }

api_error :
    on_polled (inr (record { ret_code = some (negsuc 6); msg = codes " no "; poll_data = none }))
    ≡ inl (message (codes "poll_bind_result failed (retcode -7): \"no\""))
unfolding on_polled is_zero bind_api_error int_text digits is_empty is_space trim_left trim_right
    trim_space
api_error = refl

abbrev first_url : Text
first_url = codes "https://q?_wv=2&source=a+b&task_id=t%261"

binds : connect none true connector rounds ≡ record {
  shown = first_url ∷ codes "https://q?_wv=2&source=a+b&task_id=t2" ∷ [];
  result = bound credentials;
}
unfolding connect is_empty trim_space is_space text_eq join valid_string escape_bytes
binds = refl

connect-IsBoundAt_example :
    IsBoundAt connector rounds credentials (connect none true connector rounds)
connect-IsBoundAt_example =
    connect-IsBoundAt connector credentials none true rounds (ap (λ c. c.result) binds)

connect-IsDisplayedAt_example : IsDisplayedAt (codes "a b") page rounds 0 first_url
connect-IsDisplayedAt_example =
    connect-IsDisplayedAt connector page refl refl none true rounds 0 first_url
      (ap (λ c. get_elem? c.shown 0) binds)
