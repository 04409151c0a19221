-- ===== src/Tests/Mail.antt =====
-- pkg/mailer over a server that takes the mail, and a message's text.
use go_microservice.Prelude.{true, List, [], ◌∷◌, ◌++◌, ◌≡◌, refl, some}
use go_microservice.Prelude.Int.{pos}
use go_microservice.Effect.{ok, Prog}
use go_microservice.Notification.{Message}
use go_microservice.Mailer.{SmtpSender, SmtpClient, build_message}
use go_microservice.Mailer.Events.{
  Event, dialled, made_client, asked, started_tls, authed, mailed, addressed, opened_data, wrote,
  closed_data, said_quit, closed_client, closed_conn,
}
use go_microservice.Mailer.Headers.{
  no_cr, no_cr-NoCr, read_headers, header_lines, read_headers-build_message,
}

abbrev welcome : Message
welcome = record { to = "ada@x.org"; subject = "Welcome"; body = "<p>Hi</p>" }

abbrev sender : SmtpSender
sender = record {
  host = "mail";
  port = pos 25;
  username = "mailer";
  password = "secret";
  from_name = "Shop";
  from_address = "shop@x.org";
  use_tls = true;
}

-- The world is the log of the calls; the server offers everything and takes the mail.
abbrev noted : Event → Prog (List Event) (Unit {0})
noted e w = (ok tt, w ++ e ∷ [])

abbrev server : SmtpClient (List Event)
server = record {
  dial = λ a. noted (dialled a);
  close_conn = λ w. w ++ closed_conn ∷ [];
  new_client = λ h. noted (made_client h);
  close_client = λ w. w ++ closed_client ∷ [];
  extension = λ n w. (true, w ++ asked n true ∷ []);
  start_tls = λ h. noted (started_tls h);
  auth = λ u p h. noted (authed u p h);
  mail = λ a. noted (mailed a);
  rcpt = λ a. noted (addressed a);
  open_data = noted opened_data;
  write = λ t. noted (wrote t);
  close_data = noted closed_data;
  quit = noted said_quit;
}

read_headers-build_message_example :
    read_headers 6 (build_message "Shop" "shop@x.org" welcome)
    ≡ some (header_lines "Shop" "shop@x.org" welcome, "<p>Hi</p>")
unfolding no_cr
read_headers-build_message_example =
    read_headers-build_message "Shop" "shop@x.org" welcome (no_cr-NoCr "Shop" refl)
      (no_cr-NoCr "shop@x.org" refl) (no_cr-NoCr "ada@x.org" refl) (no_cr-NoCr "Welcome" refl)
