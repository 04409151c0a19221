-- ===== src/Auth/Store.antt =====
-- services/auth: the interface of the refresh-token store, and the Redis repository behind it.
use go_microservice.Prelude.{
  String, ◌≡◌, ◌∙◌, sym, ap, Option, none, some, ◌==◌, arith, if◌then◌else◌, Option-cases,
  Bool-cases, inl, inr,
}
use go_microservice.Prelude.Int.{ℤ, IsInt64}
use go_microservice.Prelude.Text.{append-==}
use go_microservice.Prelude.Strconv.{atoi, itoa, atoi-itoa, NumError}
use go_microservice.Apperror.{app, foreign, redis_nil, unauthorized, find_kind}
use go_microservice.Effect.{ok, err}
use go_microservice.Auth.{TokenStore, Redis, refresh_key, token_repository}

-- A token store as its clients see it: `holds w t` is the user of token `t`. `Valid` is what the
-- store keeps true of the world.
pub record StoreLaws {W : Type 0} (st : TokenStore W) (Valid : W → Type 0)
    (holds : W → String → Option ℤ) : Type 0 where
  pub save :
      (t : String) (id x : ℤ) (w : W)
      → IsInt64 id
      → Valid w
      → ((st.save t id x w).0 ≡ ok tt)
        × Valid (st.save t id x w).1
        × ((u : String) → holds (st.save t id x w).1 u ≡ (if t == u then some id else holds w u))
  pub found :
      (t : String) (id : ℤ) (w : W) → Valid w → holds w t ≡ some id → st.user_id t w ≡ (ok id, w)
  pub missing :
      (t : String) (w : W)
      → Valid w
      → holds w t ≡ none
      → st.user_id t w ≡ (err (app (unauthorized "invalid or expired refresh token")), w)
  pub delete :
      (t : String) (w : W)
      → Valid w
      → ((st.delete t w).0 ≡ ok tt)
        × Valid (st.delete t w).1
        × ((u : String) → holds (st.delete t w).1 u ≡ (if t == u then none else holds w u))

-- Redis while it answers and no key expires: `value w k` is the text at key `k`.
pub record RedisLaws {W : Type 0} (rdb : Redis W) (value : W → String → Option String)
    : Type 0 where
  pub set :
      (k v : String) (x : ℤ) (w : W)
      → ((rdb.set k v x w).0 ≡ ok tt)
        × ((j : String) → value (rdb.set k v x w).1 j ≡ (if k == j then some v else value w j))
  pub get : (k v : String) (w : W) → value w k ≡ some v → rdb.get k w ≡ (ok v, w)
  pub nil_text : String
  pub get_nil :
      (k : String) (w : W) → value w k ≡ none → rdb.get k w ≡ (err (foreign redis_nil nil_text), w)
  pub del :
      (k : String) (w : W)
      → ((rdb.del k w).0 ≡ ok tt)
        × ((j : String) → value (rdb.del k w).1 j ≡ (if k == j then none else value w j))

abbrev user_of : Option String → Option ℤ
user_of none = none
user_of (some v) = some (atoi v).0

module _ {W : Type 0} (rdb : Redis W) (value : W → String → Option String) where
  -- the user ids under the refresh keys
  abbrev pub held : W → String → Option ℤ
  held w t = user_of (value w (refresh_key t))

  -- Every refresh key holds the text of an int64.
  abbrev pub HoldsIds : W → Type 0
  HoldsIds w =
      (t v : String) → value w (refresh_key t) ≡ some v → (id : ℤ) × IsInt64 id × (v ≡ itoa id)

module _ {W : Type 0} (rdb : Redis W) (value : W → String → Option String)
    (law : RedisLaws rdb value) where
  abbrev after_set : String → ℤ → ℤ → W → W
  after_set t id x w = (rdb.set (refresh_key t) (itoa id) x w).1

  value-set :
      (t u : String) (id x : ℤ) (w : W)
      → value (after_set t id x w) (refresh_key u)
        ≡ (if t == u then some (itoa id) else value w (refresh_key u))
  value-set t u id x w =
      (law.set (refresh_key t) (itoa id) x w).1 (refresh_key u) ∙ rw (append-== "refresh:" t u)

  value-del :
      (t u : String) (w : W)
      → value (rdb.del (refresh_key t) w).1 (refresh_key u)
        ≡ (if t == u then none else value w (refresh_key u))
  value-del t u w = (law.del (refresh_key t) w).1 (refresh_key u) ∙ rw (append-== "refresh:" t u)

  HoldsIds-set :
      (t : String) (id x : ℤ) (w : W)
      → IsInt64 id
      → HoldsIds rdb value w
      → HoldsIds rdb value (after_set t id x w)
  HoldsIds-set t id x w h valid u v e = elim (Bool-cases (t == u)) [
    | inl same ↦
        let e' : some (itoa id) ≡ some v = rw same at (sym (value-set t u id x w) ∙ e) in
        (id, h, cc e')
    | inr other ↦ valid u v (rw other at (sym (value-set t u id x w) ∙ e))
  ]

  held-set :
      (t u : String) (id x : ℤ) (w : W)
      → IsInt64 id
      → held rdb value (after_set t id x w) u ≡ (if t == u then some id else held rdb value w u)
  held-set t u id x w h = elim (Bool-cases (t == u)) [
    | inl same ↦ rw (value-set, same) (ap (λ (p : ℤ × Option NumError). some p.0) (atoi-itoa id h))
    | inr other ↦ rw (value-set, other)
  ]

  HoldsIds-del :
      (t : String) (w : W) → HoldsIds rdb value w → HoldsIds rdb value (rdb.del (refresh_key t) w).1
  HoldsIds-del t w valid u v e = elim (Bool-cases (t == u)) [
    | inl same ↦ cc (rw same at (sym (value-del t u w) ∙ e))
    | inr other ↦ valid u v (rw other at (sym (value-del t u w) ∙ e))
  ]

  user_id-found :
      (t : String) (id : ℤ) (w : W)
      → HoldsIds rdb value w
      → held rdb value w t ≡ some id
      → (token_repository rdb).user_id t w ≡ (ok id, w)
  unfolding token_repository
  user_id-found t id w valid e = elim (Option-cases (value w (refresh_key t))) [
    | inl gone ↦ cc (rw gone at e)
    | inr (v, kept) ↦
        let (id', h, same) = valid t v kept in
        let read : atoi v ≡ (id', none) = ap atoi same ∙ atoi-itoa id' h in
        let is_id : some (atoi v).0 ≡ some id = rw kept at e in
        rw (law.get (refresh_key t) v w kept, read) (cc (is_id, read))
  ]

  user_id-missing :
      (t : String) (w : W)
      → held rdb value w t ≡ none
      → (token_repository rdb).user_id t w
        ≡ (err (app (unauthorized "invalid or expired refresh token")), w)
  unfolding token_repository find_kind
  user_id-missing t w e = elim (Option-cases (value w (refresh_key t))) [
    | inl gone ↦ rw (law.get_nil (refresh_key t) w gone)
    | inr (v, kept) ↦ cc (rw kept at e)
  ]

  -- While Redis answers and no key expires, RedisTokenRepository is a token store: it keeps every
  -- refresh key the text of an int64, and Save, UserID and Delete act on the ids behind the tokens.
  pub token_repository-StoreLaws :
      StoreLaws (token_repository rdb) (HoldsIds rdb value) (held rdb value)
  unfolding token_repository
  token_repository-StoreLaws = record {
    save = λ t id x w h valid. (
      (law.set (refresh_key t) (itoa id) x w).0,
      HoldsIds-set t id x w h valid,
      λ u. held-set t u id x w h,
    );
    found = user_id-found;
    missing = λ t w valid e. user_id-missing t w e;
    delete = λ t w valid.
        ((law.del (refresh_key t) w).0, HoldsIds-del t w valid, λ u. rw value-del (ground arith));
  }
