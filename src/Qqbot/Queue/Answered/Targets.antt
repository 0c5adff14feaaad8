-- ===== src/Qqbot/Queue/Answered/Targets.antt =====
-- sender.go: which target has met which answer of the API.
use gatus_qqbot.Base.{ℕ, suc, List, [], ◌∷◌, some, ◌≡◌, refl, length, arith}
use gatus_qqbot.Config.{TargetConfig}
use gatus_qqbot.Qqbot.Sender.{Call, Method, Round, method_of}
use gatus_qqbot.Strings.{Text}
use gatus_qqbot.Qqbot.Sender.Loop.{AllServed}
use gatus_qqbot.Qqbot.Queue.Answered.{IsQuiet, Answered}

-- Each target has met one of the rounds, and was called by the method of its type while the context had
-- not ended, and the API reported no error.
abbrev pub AllAnswered : Text → List TargetConfig → List Round → List Call → Type 0
AllAnswered content [] rs calls = (rs ≡ []) × (calls ≡ [])
AllAnswered content (t ∷ ts) rs calls =
    (m : Method) × (r : Round) × (later : List Round) × (rest : List Call) × (rs ≡ r ∷ later)
    × (method_of t ≡ some m)
    × IsQuiet r
    × (calls ≡ record { method = m; target_id = t.id; content = content } ∷ rest)
    × AllAnswered content ts later rest

pub served-AllAnswered :
    (rounds : ℕ → Round) (k : ℕ) (content : Text) (ts : List TargetConfig) (rs : List Round)
    (calls : List Call)
    → AllServed rounds k content ts calls
    → Answered (length ts) rs
    → AllAnswered content ts rs calls
served-AllAnswered rounds k content [] [] calls h a = (refl, h)
served-AllAnswered rounds k content [] (r ∷ rs) calls h (_, l) = absurd (omega (arith, l))
served-AllAnswered rounds k content (t ∷ ts) [] calls h (_, l) = absurd (omega (arith, l))
served-AllAnswered rounds k content (t ∷ ts) (r ∷ rs) calls (m, rest, known, _, q, h)
      ((a, as'), l) =
    (
      m,
      r,
      rs,
      rest,
      refl,
      known,
      a,
      q,
      served-AllAnswered rounds (suc k) content ts rs rest h (as', omega (arith, l)),
    )
