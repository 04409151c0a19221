-- ===== src/Mailer.antt =====
-- pkg/mailer/smtp.go. The network and the SMTP client are a record of the calls made.
pub mod Events
pub mod Transcript
pub mod Conversations
pub mod Headers
use go_microservice.Prelude.{ℕ, String, Bool, true, false, ◌==◌, if◌then◌else◌}
use go_microservice.Prelude.Int.{ℤ}
use go_microservice.Prelude.Text.{◌⧺◌}
use go_microservice.Prelude.Strconv.{itoa}
use go_microservice.Apperror.{Error, wrap}
use go_microservice.Effect.{Result, ok, err, Prog, pure, fail, rescue, on_error, ◌>>=◌, ◌>>◌}
use go_microservice.Notification.{Message}

pub record SmtpSender : Type 0 where
  pub host : String
  pub port : ℤ
  pub username : String
  pub password : String
  pub from_name : String
  pub from_address : String
  pub use_tls : Bool

abbrev pub new_smtp_sender :
    (host : String) (port : ℤ) (username password from_name from_address : String)
    → (use_tls : Bool) → SmtpSender
new_smtp_sender host port username password from_name from_address use_tls = record {
  host = host;
  port = port;
  username = username;
  password = password;
  from_name = from_name;
  from_address = from_address;
  use_tls = use_tls;
}

-- The calls of net, crypto/tls and net/smtp. `extension` asks what the server offers; the two
-- `close` calls are deferred, so their errors are dropped.
pub record SmtpClient (W : Type 0) : Type 0 where
  pub dial : (addr : String) → Prog W (Unit {0})
  pub close_conn : W → W
  pub new_client : (host : String) → Prog W (Unit {0})
  pub close_client : W → W
  pub extension : (name : String) → W → Bool × W
  pub start_tls : (host : String) → Prog W (Unit {0})
  pub auth : (username password host : String) → Prog W (Unit {0})
  pub mail : (address : String) → Prog W (Unit {0})
  pub rcpt : (address : String) → Prog W (Unit {0})
  pub open_data : Prog W (Unit {0})
  pub write : String → Prog W (Unit {0})
  pub close_data : Prog W (Unit {0})
  pub quit : Prog W (Unit {0})

unfoldable pub build_message : (from_name from_address : String) → Message → String
build_message from_name from_address msg =
    "From: " ⧺ from_name ⧺ " <" ⧺ from_address ⧺ ">\r\n" ⧺ "To: " ⧺ msg.to ⧺ "\r\n" ⧺ "Subject: "
    ⧺ msg.subject ⧺ "\r\n" ⧺ "MIME-Version: 1.0\r\n"
    ⧺ "Content-Type: text/html; charset=\"UTF-8\"\r\n" ⧺ "\r\n" ⧺ msg.body

-- `defer f()`
abbrev pub finally : {W A : Type 0} → (W → W) → Prog W A → Prog W A
finally f m w = let (r, w') = m w in (r, f w')

-- `if err := m(); err != nil { return fmt.Errorf("what: %w", err) }`
abbrev pub or_wrap : {W A : Type 0} → String → Prog W A → Prog W A
or_wrap what m = rescue m (λ e. fail (wrap what e))

module _ {W : Type 0} (smtp : SmtpClient W) (s : SmtpSender) where
  -- the call, if the server offers the extension
  unfoldable pub if_offered : String → Prog W (Unit {0}) → Prog W (Unit {0})
  if_offered name m w =
      let (offered, w') = smtp.extension name w in (if offered then m else pure tt) w'

  unfoldable pub secured : Prog W (Unit {0})
  unfolding if_offered
  secured =
      if s.use_tls
      then if_offered "STARTTLS" (or_wrap "starttls" (smtp.start_tls s.host))
      else pure tt

  unfoldable pub authenticated : Prog W (Unit {0})
  unfolding if_offered
  authenticated =
      if s.username == ""
      then pure tt
      else if_offered "AUTH" (or_wrap "smtp auth" (smtp.auth s.username s.password s.host))

  -- a write that fails closes the writer, whose error is dropped
  unfoldable pub written : Message → Prog W (Unit {0})
  written msg =
      rescue (smtp.write (build_message s.from_name s.from_address msg))
        (λ e w. (err (wrap "writing smtp message body" e), (smtp.close_data w).1))

  unfoldable pub dialogue : Message → Prog W (Unit {0})
  unfolding secured authenticated written
  dialogue msg = do
    secured
    authenticated
    or_wrap "smtp MAIL" (smtp.mail s.from_address)
    or_wrap "smtp RCPT" (smtp.rcpt msg.to)
    or_wrap "smtp DATA" smtp.open_data
    written msg
    or_wrap "closing smtp message body" smtp.close_data
    smtp.quit

  unfoldable pub connected : Message → Prog W (Unit {0})
  unfolding dialogue
  connected msg = do
    or_wrap "creating smtp client" (smtp.new_client s.host)
    finally smtp.close_client (dialogue msg)

  -- SMTPSender.Send
  unfoldable pub send : Message → Prog W (Unit {0})
  unfolding connected
  send msg =
      let addr = s.host ⧺ ":" ⧺ itoa s.port in
      do
        or_wrap ("dialing smtp server " ⧺ addr) (smtp.dial addr)
        finally smtp.close_conn (connected msg)
