-- ===== src/Tests/Auth.antt =====
-- services/auth over a Redis that is a function of the key, with one user and a trivial hash.
use go_microservice.Prelude.{
  String, ◌≡◌, ◌≢◌, refl, Option, none, some, ◌==◌, eq_iff, if◌then◌else◌, inl, inr, arith,
  Bool-cases,
}
use go_microservice.Prelude.Int.{pos, IsInt64}
use go_microservice.Prelude.Text.{◌⧺◌}
use go_microservice.Prelude.Strconv.{atoi, itoa}
use go_microservice.Apperror.{app, foreign, redis_nil, not_found}
use go_microservice.Effect.{ok, err, Prog}
use go_microservice.Auth.{
  Service, Redis, User, UserLookup, TokenPair, LoginDto, token_repository, refresh_key, refresh,
  logout, redeem, issue_token_pair,
}
use go_microservice.Auth.Store.{StoreLaws, RedisLaws, held, HoldsIds, token_repository-StoreLaws}
use go_microservice.Auth.Sessions.{
  SessionLaws, HandsOut, no_such_token, refresh-HandsOut, refresh-refresh, refresh-logout,
}
use go_microservice.Auth.Race.{redeem-redeem}

abbrev pub Keys : Type 0
Keys = String → Option String

abbrev read_key : Option String → Prog Keys String
read_key (some v) w = (ok v, w)
read_key none w = (err (foreign redis_nil "redis: nil"), w)

abbrev pub redis : Redis Keys
redis = record {
  set = λ k v x w. (ok tt, λ j. if k == j then some v else w j);
  get = λ k w. read_key (w k) w;
  del = λ k w. (ok tt, λ j. if k == j then none else w j);
}

abbrev value : Keys → String → Option String
value w k = w k

redis_laws : RedisLaws redis value
redis_laws = record {
  set = λ k v x w. (refl, λ j. refl);
  get = λ k v w e. rw e refl;
  nil_text = "redis: nil";
  get_nil = λ k w e. rw e refl;
  del = λ k w. (refl, λ j. refl);
}

token_repository-StoreLaws_example :
    StoreLaws (token_repository redis) (HoldsIds redis value) (held redis value)
token_repository-StoreLaws_example = token_repository-StoreLaws redis value redis_laws

abbrev ada : User
ada = record {
  id = pos 7;
  name = "Ada";
  email = "ada@x.org";
  password = "#secret";
  created_at = record { unix_nano = pos 0 };
  updated_at = record { unix_nano = pos 0 };
}

abbrev users : UserLookup Keys
users = record {
  exists_by_email = λ email w. (ok (email == "ada@x.org"), w);
  get_by_email = λ email w.
      (if email == "ada@x.org" then ok ada else err (app (not_found "user not found")), w);
  create = λ name email password w.
      (ok (record ada { name = name; email = email; password = password }), w);
}

abbrev pub service : Service Keys
service = record {
  repo = users;
  token_store = token_repository redis;
  issue = λ id expiry w. (ok ("jwt-" ⧺ itoa id), w);
  access_expiry = pos 900000000000;
  refresh_expiry = pos 604800000000000;
  hash = λ p w. (ok "#", w);
  matches = λ hashed p. hashed == "#" ⧺ p;
  new_uuid = λ w. ("new", w);
  seconds = λ d. d;
}

session_laws : SessionLaws service (HoldsIds redis value) (held redis value)
session_laws = record {
  store = token_repository-StoreLaws redis value redis_laws;
  signed = λ id x w. "jwt-" ⧺ itoa id;
  issue = λ id x w. refl;
  issue_valid = λ id x w v. v;
  issue_holds = λ id x w u. refl;
  uuid_valid = λ w v. v;
  uuid_holds = λ w u. refl;
}

-- one stored token, "old", of user 7
abbrev pub keys : Keys
keys j = if "refresh:old" == j then some "7" else none

seven_fits : IsInt64 (pos 7)
seven_fits = omega arith

seven : itoa (pos 7) ≡ "7"
unfolding itoa
seven = refl

keys_valid : HoldsIds redis value keys
keys_valid t v e = elim (Bool-cases ("refresh:old" == refresh_key t)) [
  | inl same ↦ (pos 7, seven_fits, cc (rw same at e, seven))
  | inr other ↦ cc (rw other at e)
]

old_held : held redis value keys "old" ≡ some (pos 7)
unfolding atoi
old_held = refl

abbrev pair : TokenPair
pair = record {
  access_token = "jwt-7";
  refresh_token = "new";
  access_expires_in = pos 900000000000;
  refresh_expires_in = pos 604800000000000;
}

refreshed : (refresh service "old" keys).0 ≡ ok pair
unfolding refresh redeem issue_token_pair token_repository atoi itoa
refreshed = refl

new_is_other : pair.refresh_token ≢ "old"
new_is_other e = cc ((eq_iff "new" "old").1 e)

refresh-HandsOut_example :
    HandsOut service
      (HoldsIds redis value)
      (held redis value)
      (pos 7)
      (λ u. if "old" == u then none else held redis value keys u)
      (refresh service "old" keys)
refresh-HandsOut_example =
    refresh-HandsOut service (HoldsIds redis value) (held redis value) session_laws (pos 7)
      seven_fits "old" keys keys_valid old_held

refresh-refresh_example :
    refresh service "old" (refresh service "old" keys).1
    ≡ (err no_such_token, (refresh service "old" keys).1)
refresh-refresh_example =
    refresh-refresh service (HoldsIds redis value) (held redis value) session_laws (pos 7)
      seven_fits "old" keys pair keys_valid old_held refreshed new_is_other

refresh-logout_example :
    ((logout service "old" keys).0 ≡ ok tt)
    × (refresh service "old" (logout service "old" keys).1
        ≡ (err no_such_token, (logout service "old" keys).1))
refresh-logout_example =
    refresh-logout service (HoldsIds redis value) (held redis value) session_laws "old" keys
      keys_valid

redeem-redeem_example :
    let first = redeem service "old" (pos 7) keys in
    let second = redeem service "old" (pos 7) first.1 in
    (service.token_store.user_id "old" keys ≡ (ok (pos 7), keys))
    × ((p : TokenPair) × (q : TokenPair) × (first.0 ≡ ok p)
        × (second.0 ≡ ok q)
        × (held redis value second.1 q.refresh_token ≡ some (pos 7))
        × (p.refresh_token ≢ "old" → held redis value second.1 p.refresh_token ≡ some (pos 7)))
redeem-redeem_example =
    redeem-redeem service (HoldsIds redis value) (held redis value) session_laws (pos 7) seven_fits
      "old" keys keys_valid old_held

abbrev credentials : LoginDto
credentials = record { email = "ada@x.org"; password = "secret" }
