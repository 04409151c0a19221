-- ===== src/Mailer/Transcript.antt =====
-- What Send is to say to the network, by what the server offers.
use go_microservice.Prelude.{
  String, Bool, true, false, List, [], ◌∷◌, ◌++◌, ◌≡◌, ◌⊎◌, ◌==◌, if◌then◌else◌,
}
use go_microservice.Prelude.Text.{◌⧺◌}
use go_microservice.Prelude.Strconv.{itoa}
use go_microservice.Apperror.{Error}
use go_microservice.Effect.{Result, ok, err}
use go_microservice.Notification.{Message}
use go_microservice.Mailer.{SmtpSender, build_message}
use go_microservice.Mailer.Events.{
  Event, dialled, made_client, asked, started_tls, authed, mailed, addressed, opened_data, wrote,
  closed_data, said_quit, closed_client, closed_conn,
}

-- asking for an extension, and the call that it is for
abbrev pub offer : String → Event → Bool → List Event
offer name e true = asked name true ∷ e ∷ []
offer name e false = asked name false ∷ []

module _ (s : SmtpSender) where
  abbrev pub address : String
  address = s.host ⧺ ":" ⧺ itoa s.port

  -- STARTTLS if TLS is wanted, and used if it is offered
  abbrev pub tls_calls : Bool → List Event
  tls_calls offered = if s.use_tls then offer "STARTTLS" (started_tls s.host) offered else []

  -- AUTH if there is a username, and used if it is offered
  abbrev pub auth_calls : Bool → List Event
  auth_calls offered =
      if s.username == "" then [] else offer "AUTH" (authed s.username s.password s.host) offered

  abbrev pub mail_calls : Message → List Event
  mail_calls msg =
      mailed s.from_address
      ∷ addressed msg.to
      ∷ opened_data
      ∷ wrote (build_message s.from_name s.from_address msg)
      ∷ closed_data
      ∷ said_quit
      ∷ []

  -- the calls of a Send that succeeds, after the dialling, by what the server says of STARTTLS and AUTH
  abbrev pub transcript : Message → (tls_offered auth_offered : Bool) → List Event
  transcript msg a b =
      made_client s.host
      ∷ (tls_calls a ++ (auth_calls b ++ (mail_calls msg ++ closed_client ∷ closed_conn ∷ [])))

-- What a Send with this result did: it dialled in vain, or it held a conversation and closed the
-- connection last.
abbrev pub Conversation :
    {W : Type 0} → (W → List Event) → SmtpSender → Message → W → Result (Unit {0}) × W → Type 0
Conversation log s msg w out =
    ((e : Error) × (out.0 ≡ err e) × (log out.1 ≡ log w ++ dialled (address s) ∷ []))
    ⊎ ((es : List Event) × (log out.1 ≡ log w ++ dialled (address s) ∷ (es ++ closed_conn ∷ []))
        × (out.0 ≡ ok tt
            → (tls_offered : Bool) × (auth_offered : Bool) × (es ++ closed_conn ∷ []
                ≡ transcript s msg tls_offered auth_offered)))
