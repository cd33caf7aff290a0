-- ===== src/Tests/Logins.antt =====
-- The login page at inputs.
use audio_server.Common.{List, [], arith, refl, ◌∷◌, ◌≡◌}
use audio_server.Actions.{login_reply, login_with_credentials, login_with_secret, text}
use audio_server.Login.{
  Input, Page, Tab, chosen, cred_answered, cred_submitted, initial, left_for, run, secret_answered,
  secret_submitted, step,
}
use audio_server.Login.Laws.{IsSafe, run-IsSafe}
use audio_server.Login.Attempt.{Ends, attempt-Ends}
use audio_server.Tests.Sample.{env, signer}
use audio_server.Tests.Sessions.{accepting, player, refusing}

-- A wrong password, then the secret while a second answer is awaited.
abbrev inputs : List Input
inputs =
    cred_submitted (text "ann") (text "pw")
    ∷ cred_answered refusing
    ∷ cred_submitted (text "ann") (text "pw2")
    ∷ chosen Tab.secret
    ∷ secret_submitted (text "s3cret")
    ∷ secret_answered 5
    ∷ []

abbrev end : Page
end = run env signer inputs (initial player)

logins : Unit {0}
unfolding run step login_with_credentials login_with_secret login_reply
logins = tt

end_test : end.place ≡ left_for "/dashboard"
unfolding logins
end_test = refl

run-IsSafe_example : IsSafe player end.place end.jar
run-IsSafe_example = run-IsSafe env signer player inputs

abbrev meanwhile : List Input
meanwhile =
    chosen Tab.secret
    ∷ secret_submitted (text "no")
    ∷ secret_answered 3
    ∷ cred_submitted (text "x") (text "y")
    ∷ []

attempt-Ends_example :
    Ends (login_with_credentials env accepting (text "ann") (text "pw") player) player (
      step env signer
        (cred_answered accepting)
        (run env signer (cred_submitted (text "ann") (text "pw") ∷ meanwhile) (initial player)))
unfolding logins
attempt-Ends_example =
    attempt-Ends env signer (text "ann") (text "pw") (initial player) meanwhile accepting refl refl
      refl (ground arith) refl
