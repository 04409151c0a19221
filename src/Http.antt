-- ===== src/Http.antt =====
-- What the services use of net/http, encoding/json, context and pkg/logger: JSON values, headers,
-- requests, response writers, handlers that may panic, and pkg/logger's context helpers.
-- A header name stands for its canonical form.
pub mod Mux
use go_microservice.Prelude.{
  ℕ, String, Bool, List, [], ◌∷◌, ◌++◌, Option, none, some, map, ◌==◌, if◌then◌else◌, lookup,
}
use go_microservice.Prelude.Int.{ℤ, negsuc}
use go_microservice.Prelude.Text.{trim_space}
use go_microservice.Apperror.{Error}

-- time.Time: an instant in nanoseconds
pub record Time : Type 0 where
  pub unix_nano : ℤ

-- time.Time{}: the first instant of year 1
abbrev pub zero_time : Time
zero_time = record { unix_nano = negsuc 62135596799999999999 }

-- What encoding/json is given: the tree, whose text is the library's.
mutual
  pub data Json : Type 0 where
    null : Json
    bool : Bool → Json
    int : ℤ → Json
    str : String → Json
    time : Time → Json
    arr : Items → Json
    obj : Fields → Json

  pub data Items : Type 0 where
    no_item : Items
    item : Json → Items → Items

  pub data Fields : Type 0 where
    no_field : Fields
    field : String → Json → Fields → Fields

-- http.Cookie, with the fields that the code sets
pub data SameSite : Type 0 where
  lax_mode strict_mode none_mode : SameSite

pub record Cookie : Type 0 where
  pub name : String
  pub value : String
  pub http_only : Bool
  pub secure : Bool
  pub same_site : SameSite
  pub path : String
  pub max_age : ℤ

-- the response's headers; http.SetCookie adds a Set-Cookie line, kept here as the cookie
pub record Header : Type 0 where
  pub fields : List (String × List String)
  pub cookies : List Cookie

pub set_field : String → List String → List (String × List String) → List (String × List String)
set_field k v [] = (k, v) ∷ []
set_field k v ((j, w) ∷ h) = if j == k then (k, v) ∷ h else (j, w) ∷ set_field k v h

abbrev pub field_values : String → List (String × List String) → List String
field_values k h = elim (lookup k h) [ none ↦ [] | some v ↦ v ]

pub record Head : Type 0 where
  pub status : ℕ
  pub header : Header

-- What a response's body is made of: JSON values, and the texts of net/http: the text of http.Error,
-- and the page of http.Redirect with its link.
pub data Chunk : Type 0 where
  json : Json → Chunk
  plain_text : String → Chunk
  link_page : (location : String) → Chunk

-- The first WriteHeader sends the status line and the headers; a later one is ignored. Each
-- `recorder` is the status of one statusRecorder round the writer, the innermost first.
pub record Writer : Type 0 where
  pub header : Header
  pub sent : Option Head
  pub body : List Chunk
  pub recorders : List ℕ

-- the loggers: the process-wide one, or one made from it with a request_id attribute
pub data LoggerRef : Type 0 where
  default_logger : LoggerRef
  with_request_id : String → LoggerRef

-- the values that the code stores in a context.Context
pub record Context : Type 0 where
  pub request_id : Option String
  pub user_id : Option ℤ
  pub logger : Option LoggerRef

abbrev pub background : Context
background = record { request_id = none; user_id = none; logger = none }

-- logger.WithContext and logger.FromContext; `none` is the nil context
unfoldable pub with_context : Context → LoggerRef → Context
with_context ctx l = record ctx { logger = some l }

unfoldable pub from_context : Option Context → LoggerRef
from_context none = default_logger
from_context (some ctx) = elim ctx.logger [ none ↦ default_logger | some l ↦ l ]

pub data Level : Type 0 where
  level_debug level_info level_warn level_error : Level

-- strings.ToLower is a parameter.
unfoldable pub parse_level : (String → String) → String → Level
parse_level to_lower s =
    let t = to_lower (trim_space s) in
    if t == "debug"
    then level_debug
    else if t == "warn"
    then level_warn
    else if t == "warning"
    then level_warn
    else if t == "error"
    then level_error
    else level_info

pub record Request : Type 0 where
  pub method : String
  pub path : String
  pub header : List (String × String)
  pub cookies : List (String × String)
  pub query : List (String × List String)
  pub path_id : String
  pub remote_addr : String
  pub body : String
  pub ctx : Context

-- r.Header.Get: "" if there is none
abbrev pub get_header : Request → String → String
get_header r k = elim (lookup k r.header) [ none ↦ "" | some v ↦ v ]

-- url.Values.Get
abbrev first_value : Option (List String) → String
first_value none = ""
first_value (some []) = ""
first_value (some (v ∷ vs)) = v

abbrev pub get_value : List (String × List String) → String → String
get_value q k = first_value (lookup k q)

-- the log lines that the properties speak of
pub data LogLine : Type 0 where
  request_completed : LoggerRef → (method path : String) → (status : ℕ) → LogLine
  internal_error : LoggerRef → (method path : String) → Error → LogLine
  panic_recovered : LoggerRef → (method path panic : String) → LogLine

-- one request being served: the world, the response so far, and the log
pub record Conn (W : Type 0) : Type 0 where
  pub world : W
  pub writer : Writer
  pub log : List LogLine

pub data Exit : Type 0 where
  returned : Exit
  panicked : String → Exit

abbrev pub Handler : Type 0 → Type 0
Handler W = Request → Conn W → Exit × Conn W

abbrev pub fresh : Writer
fresh = record {
  header = record { fields = []; cookies = [] };
  sent = none;
  body = [];
  recorders = [];
}

abbrev pub send_head : ℕ → Writer → Option Head → Writer
send_head code w none = record w {
  sent = some (record { status = code; header = w.header });
  recorders = map (λ _. code) w.recorders;
}
send_head code w (some h) = record w { recorders = map (λ _. code) w.recorders }

abbrev pub send_body : Chunk → Writer → Option Head → Writer
send_body j w none = record w {
  sent = some (record { status = 200; header = w.header });
  body = w.body ++ j ∷ [];
}
send_body j w (some h) = record w { body = w.body ++ j ∷ [] }

module _ {W : Type 0} where
  -- w.WriteHeader(code), through the statusRecorders round the writer (pkg/middleware/logger.go)
  unfoldable pub write_header : ℕ → Conn W → Conn W
  write_header code c = record c { writer = send_head code c.writer c.writer.sent }

  -- json.NewEncoder(w).Encode(v): a first write without WriteHeader sends status 200
  unfoldable pub encode : Json → Conn W → Conn W
  encode j c = record c { writer = send_body (json j) c.writer c.writer.sent }

  -- fmt.Fprint of one of net/http's own texts
  unfoldable pub write_chunk : Chunk → Conn W → Conn W
  write_chunk t c = record c { writer = send_body t c.writer c.writer.sent }

  -- w.Header().Set and w.Header().Add
  unfoldable pub set_header : String → String → Conn W → Conn W
  unfolding set_field
  set_header k v c =
      let w = c.writer in
      record c {
        writer = record w {
          header = record (w.header) { fields = set_field k (v ∷ []) w.header.fields };
        };
      }

  unfoldable pub add_header : String → String → Conn W → Conn W
  unfolding set_field
  add_header k v c =
      let w = c.writer in
      let old = field_values k w.header.fields in
      record c {
        writer = record w {
          header = record (w.header) { fields = set_field k (old ++ v ∷ []) w.header.fields };
        };
      }

  -- http.SetCookie
  unfoldable pub set_cookie : Cookie → Conn W → Conn W
  set_cookie k c =
      let w = c.writer in
      record c {
        writer = record w { header = record (w.header) { cookies = w.header.cookies ++ k ∷ [] } };
      }

  abbrev pub write_log : LogLine → Conn W → Conn W
  write_log l c = record c { log = c.log ++ l ∷ [] }
