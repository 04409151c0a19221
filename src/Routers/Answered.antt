-- ===== src/Routers/Answered.antt =====
-- The routers of the services over handlers that answer.
use go_microservice.Prelude.{String, List}
use go_microservice.Http.{Request, Conn}
use go_microservice.Http.Mux.{Route}
use go_microservice.Middleware.Answered.{Served, auth-Answers, router_stack-Served}
use go_microservice.Contract.{Shape}
use go_microservice.Contract.Envelope.{Blank}
use go_microservice.Contract.Routed.{
  Answers, AllAnswer, no_routes, routes, serve_mux-Answers, strip_prefix-Answers,
}
use go_microservice.Routers.{
  HealthHandler, UserHandler, NotificationHandler, AuthHandler, user_routes, register,
  register_user_routes, register_notification_routes, register_auth_routes, register_user,
  register_notification, register_auth,
}

module _ {W : Type 0} (s : Shape) (clean : String → String) where
  -- the handlers of a service answer
  pub record UsersAnswer (h : UserHandler W) : Type 0 where
    pub get_all : Answers s h.get_all
    pub get_by_id : Answers s h.get_by_id
    pub create : Answers s h.create
    pub update : Answers s h.update
    pub delete : Answers s h.delete

  pub record NotificationsAnswer (h : NotificationHandler W) : Type 0 where
    pub get_all : Answers s h.get_all
    pub get_by_id : Answers s h.get_by_id

  pub record AuthAnswers (h : AuthHandler W) : Type 0 where
    pub register : Answers s h.register
    pub login : Answers s h.login
    pub refresh : Answers s h.refresh
    pub logout : Answers s h.logout

  pub record HealthAnswers (h : HealthHandler W) : Type 0 where
    pub live : Answers s h.live
    pub ready : Answers s h.ready

  user_routes-AllAnswer : (h : UserHandler W) → UsersAnswer h → AllAnswer s (user_routes h)
  unfolding user_routes
  user_routes-AllAnswer h a = routes _ _ a.get_all (
      routes _ _ a.get_by_id
        (routes _ _ a.create (routes _ _ a.update (routes _ _ a.delete no_routes))))

  module _ (new_uuid : W → String × W) (health : HealthHandler W)
      (healthy : HealthAnswers health) where
    register-Served :
        (v1 : List (Route W))
        → AllAnswer s v1
        → (r : Request) (c : Conn W) → Blank c
        → Served s (register clean new_uuid v1 health r c)
    unfolding register
    register-Served v1 k = router_stack-Served s new_uuid _ (
        serve_mux-Answers s clean _ (
          routes _ _ (strip_prefix-Answers s "/v1" _ (serve_mux-Answers s clean v1 k))
            (routes _ _ healthy.live (routes _ _ healthy.ready no_routes))))

    pub register_user-Served :
        (h : UserHandler W)
        → UsersAnswer h
        → (r : Request) (c : Conn W) → Blank c
        → Served s (register_user clean new_uuid h health r c)
    unfolding register_user register_user_routes
    register_user-Served h a = register-Served _ (
        routes _ _
          (auth-Answers s _ (
            strip_prefix-Answers s "/users" _
              (serve_mux-Answers s clean _ (user_routes-AllAnswer h a))))
          no_routes)

    pub register_notification-Served :
        (h : NotificationHandler W)
        → NotificationsAnswer h
        → (r : Request) (c : Conn W) → Blank c
        → Served s (register_notification clean new_uuid h health r c)
    unfolding register_notification register_notification_routes
    register_notification-Served h a = register-Served _ (
        routes _ _
          (auth-Answers s _ (
            strip_prefix-Answers s "/notifications" _ (
              serve_mux-Answers s clean _
                (routes _ _ a.get_all (routes _ _ a.get_by_id no_routes)))))
          no_routes)

    pub register_auth-Served :
        (h : AuthHandler W)
        → AuthAnswers h
        → (r : Request) (c : Conn W) → Blank c
        → Served s (register_auth clean new_uuid h health r c)
    unfolding register_auth register_auth_routes
    register_auth-Served h a = register-Served _ (
        routes _ _
          (strip_prefix-Answers s "/auth" _ (
            serve_mux-Answers s clean _ (
              routes _ _ a.register
                (routes _ _ a.login (routes _ _ a.refresh (routes _ _ a.logout no_routes))))))
          no_routes)
