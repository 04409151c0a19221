-- ===== src/Mailer/Events.antt =====
-- The calls of net and net/smtp as a log, and the calls that a chain of Send makes.
use mathlib.Core.List.{append_assoc}
use go_microservice.Prelude.{String, Bool, List, [], ◌∷◌, ◌++◌, ◌≡◌, refl, ap, ◌∙◌}
use go_microservice.Apperror.{wrap}
use go_microservice.Effect.{Result, ok, err, Prog, fail, on_error, continue, ◌>>◌}
use go_microservice.Mailer.{SmtpClient, or_wrap, finally}

-- a call of net or net/smtp; `asked` has the server's answer
pub data Event : Type 0 where
  dialled : (addr : String) → Event
  made_client : (host : String) → Event
  asked : (name : String) → Bool → Event
  started_tls : (host : String) → Event
  authed : (username password host : String) → Event
  mailed : (address : String) → Event
  addressed : (address : String) → Event
  opened_data : Event
  wrote : String → Event
  closed_data : Event
  said_quit : Event
  closed_client : Event
  closed_conn : Event

-- `log` records the calls.
pub record Logs {W : Type 0} (smtp : SmtpClient W) (log : W → List Event) : Type 0 where
  pub dial : (a : String) (w : W) → log (smtp.dial a w).1 ≡ log w ++ dialled a ∷ []
  pub close_conn : (w : W) → log (smtp.close_conn w) ≡ log w ++ closed_conn ∷ []
  pub new_client : (h : String) (w : W) → log (smtp.new_client h w).1 ≡ log w ++ made_client h ∷ []
  pub close_client : (w : W) → log (smtp.close_client w) ≡ log w ++ closed_client ∷ []
  pub extension :
      (n : String) (w : W)
      → log (smtp.extension n w).1 ≡ log w ++ asked n (smtp.extension n w).0 ∷ []
  pub start_tls : (h : String) (w : W) → log (smtp.start_tls h w).1 ≡ log w ++ started_tls h ∷ []
  pub auth : (u p h : String) (w : W) → log (smtp.auth u p h w).1 ≡ log w ++ authed u p h ∷ []
  pub mail : (a : String) (w : W) → log (smtp.mail a w).1 ≡ log w ++ mailed a ∷ []
  pub rcpt : (a : String) (w : W) → log (smtp.rcpt a w).1 ≡ log w ++ addressed a ∷ []
  pub open_data : (w : W) → log (smtp.open_data w).1 ≡ log w ++ opened_data ∷ []
  pub write : (t : String) (w : W) → log (smtp.write t w).1 ≡ log w ++ wrote t ∷ []
  pub close_data : (w : W) → log (smtp.close_data w).1 ≡ log w ++ closed_data ∷ []
  pub quit : (w : W) → log (smtp.quit w).1 ≡ log w ++ said_quit ∷ []

module _ {W : Type 0} (log : W → List Event) where
  -- It makes some calls, and if it succeeds, they are `calls x` for some x.
  abbrev pub Ran : {X : Type 0} → (X → List Event) → W → Result (Unit {0}) × W → Type 0
  Ran {X} calls w p =
      (es : List Event) × (log p.1 ≡ log w ++ es) × (p.0 ≡ ok tt → (x : X) × (es ≡ calls x))

  pub record Does {X : Type 0} (m : Prog W (Unit {0})) (calls : X → List Event) : Type 0 where
    pub ran : (w : W) → Ran calls w (m w)

  abbrev pub once : Event → Unit {0} → List Event
  once e tt = e ∷ []

  pub call-Does :
      (m : Prog W (Unit {0})) (e : Event)
      → ((w : W) → log (m w).1 ≡ log w ++ e ∷ [])
      → Does m (once e)
  call-Does m e h = record { ran = λ w. (e ∷ [], h w, λ _. (tt, refl)) }

  module _ {X Y : Type 0} (f : X → List Event) (g : Y → List Event) where
    abbrev pub both : X × Y → List Event
    both (x, y) = f x ++ g y

    continue-Ran :
        (p : Result (Unit {0}) × W) (k : Prog W (Unit {0})) (w : W)
        → Ran f w p
        → Does k g
        → Ran both w (continue p (λ _. k))
    continue-Ran (ok tt, v) k w (es, made, xs) next =
        let (fs, more, ys) = next.ran v in
        (
          es ++ fs,
          more ∙ ap (λ l. l ++ fs) made ∙ append_assoc (log w) es fs,
          λ done. let (x, a) = xs refl in let (y, b) = ys done in ((x, y), rw (a, b) refl),
        )
    continue-Ran (err e, v) k w (es, made, xs) next = (es, made, λ done. cc)

    pub seq-Does : (m k : Prog W (Unit {0})) → Does m f → Does k g → Does (m >> k) both
    seq-Does m k h next = record { ran = λ w. continue-Ran (m w) k w (h.ran w) next }

  module _ {X : Type 0} (f : X → List Event) where
    on_error-Ran :
        (what : String) (p : Result (Unit {0}) × W) (w : W)
        → Ran f w p
        → Ran f w (on_error p (λ e. fail (wrap what e)))
    on_error-Ran what (ok tt, v) w h = h
    on_error-Ran what (err e, v) w (es, made, xs) = (es, made, λ done. cc)

    pub or_wrap-Does : (what : String) (m : Prog W (Unit {0})) → Does m f → Does (or_wrap what m) f
    or_wrap-Does what m h = record { ran = λ w. on_error-Ran what (m w) w (h.ran w) }

    finally-Ran :
        (close : W → W) (e : Event) (p : Result (Unit {0}) × W) (w : W)
        → ((w : W) → log (close w) ≡ log w ++ e ∷ [])
        → Ran f w p
        → Ran (λ x. f x ++ e ∷ []) w (p.0, close p.1)
    finally-Ran close e p w closes (es, made, xs) = (
      es ++ e ∷ [],
      closes p.1 ∙ ap (λ l. l ++ e ∷ []) made ∙ append_assoc (log w) es (e ∷ []),
      λ done. let (x, a) = xs done in (x, ap (λ l. l ++ e ∷ []) a),
    )

    pub finally-Does :
        (close : W → W) (e : Event) (m : Prog W (Unit {0}))
        → ((w : W) → log (close w) ≡ log w ++ e ∷ [])
        → Does m f
        → Does (finally close m) (λ x. f x ++ e ∷ [])
    finally-Does close e m closes h = record {
      ran = λ w. finally-Ran close e (m w) w closes (h.ran w);
    }
