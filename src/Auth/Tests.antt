-- ===== src/Auth/Tests.antt =====
-- Signing in on a concrete run.
use opsup.Prelude.{
  ℕ, zero, suc, true, false, ◌&&◌, codes, arith, ◌≡◌, refl, none, some, List, [], ◌∷◌,
}
use opsup.Auth.Storage.{
  nothing, load, mount, run, react, sign_in, on_error, authorization, Event, signs_in, fails, opens,
}
use opsup.Auth.Storage.{private_route, children}
use opsup.Auth.Setup.{form_passes, server_accepts, same_text, form_passes-server_accepts}
use opsup.Auth.Pages
use opsup.Auth.Pages.{login, Happening, answers_status, submits, accepts, refuses, step, steps}
use opsup.Terminal.Frames.{encode}
use opsup.Auth.Signing.{Serves, run-Serves}

abbrev long : ℕ → List ℕ
long zero = []
long (suc n) = b'a' ∷ long n

abbrev events : List Event
events = signs_in (record { token = "t"; username = "ops" }) ∷ fails none ∷ opens "/" ∷ []

bearer : authorization (run events (load "/" nothing)).storage ≡ some "Bearer t"
unfolding authorization run react sign_in on_error load mount
bearer = refl

run-Serves_example : Serves "t" (run events (load "/" nothing))
run-Serves_example = run-Serves "/" nothing events

-- A login that is refused with 401, and then one that is not.
abbrev tries : List Happening
tries =
    answers_status true
    ∷ submits
    ∷ refuses (record { status = some 401; error = none })
    ∷ submits
    ∷ accepts (record { token = "t"; username = "ops" })
    ∷ []

led_in :
    ((steps tries (Pages.mount login (load "/login" nothing))).tab.path ≡ "/")
    × (private_route (steps tries (Pages.mount login (load "/login" nothing))).tab.storage
        ≡ children)
unfolding steps step sign_in on_error load private_route
led_in = (refl, refl)

-- The page that was reloaded shows no notice of the refusal.
no_notice : (steps tries (Pages.mount login (load "/login" nothing))).notices ≡ "登录成功" ∷ []
unfolding steps step sign_in on_error load
no_notice = refl

form_passes-server_accepts_example :
    form_passes (codes "ops") (codes "correct horse") (codes "correct horse") ≡ (
      server_accepts (codes "ops") (codes "correct horse")
      && same_text (codes "correct horse") (codes "correct horse"))
form_passes-server_accepts_example =
    form_passes-server_accepts (codes "ops") (codes "correct horse") (codes "correct horse")
      (omega arith)

-- The form does not bound the username, and the server does.
long_username :
    (form_passes (long 65) (long 12) (long 12) ≡ true)
    × (server_accepts (long 65) (long 12) ≡ false)
unfolding form_passes server_accepts encode
long_username = (refl, refl)
