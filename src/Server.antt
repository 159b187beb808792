-- ===== src/Server.antt =====
-- server/server.go, server/router.go: the routes that the options give to chi's mux, and the server's
-- start and shutdown.
use Prim.Native.String.{◌++◌ as str_append}
use zkcertificates_queue_pro.Base.{
  String, Bool, true, false, Option, none, some, List, [], ◌∷◌, Result, ok, err,
}
use zkcertificates_queue_pro.Sentry.{Report, capture_error}

-- chi's mux, with handlers and middlewares told by their names. An error is a panic, such as that of
-- `Use` once the mux has a route. `not_found` sets the answer to any other path.
pub record Chi : Type 1 where
  pub Mux : Type 0
  pub new_mux : Mux
  pub get : (path handler : String) → Mux → Result Mux
  pub post : (path handler : String) → Mux → Result Mux
  pub handle : (path handler : String) → Mux → Result Mux
  pub use_middleware : (middleware : String) → Mux → Result Mux
  pub not_found : Mux → Result Mux

module _ (chi : Chi) where
  open chi use {Mux, new_mux, get, post, handle, use_middleware, not_found}

  pub record Router : Type 0 where
    pub mux : Mux

  pub record Server : Type 0 where
    pub name : String
    pub port : String
    pub addr : String
    pub handler : Mux

  abbrev pub on_mux : Result Mux → Result Router
  on_mux (ok m) = ok (record { mux = m })
  on_mux (err e) = err e

  abbrev pub with_get : String → String → Router → Result Router
  with_get path handler r = on_mux (get path handler r.mux)

  abbrev pub with_post : String → String → Router → Result Router
  with_post path handler r = on_mux (post path handler r.mux)

  abbrev pub with_handle : String → String → Router → Result Router
  with_handle path handler r = on_mux (handle path handler r.mux)

  abbrev pub with_middleware : String → Router → Result Router
  with_middleware middleware r = on_mux (use_middleware middleware r.mux)

  abbrev pub apply_router_options : List (Router → Result Router) → Router → Result Router
  apply_router_options [] r = ok r
  apply_router_options (option ∷ options) r = elim (option r) [
    | ok r' ↦ apply_router_options options r'
    | err e ↦ err e
  ]

  abbrev pub with_not_found : Result Router → Result Router
  with_not_found (err e) = err e
  with_not_found (ok r) = on_mux (not_found r.mux)

  abbrev pub new_router : List (Router → Result Router) → Result Router
  new_router options = with_not_found (apply_router_options options (record { mux = new_mux }))

  abbrev pub serving : String → String → Result Router → Result Server
  serving name port (err e) = err e
  serving name port (ok r) =
      ok (record { name = name; port = port; addr = str_append ":" port; handler = r.mux })

  abbrev pub new_server : String → String → List (Router → Result Router) → Result Server
  new_server name port options = serving name port (new_router options)

-- How the goroutine of `Start` ends: the reports sent to Sentry, and whether the process exits with
-- code 1.
pub record Served : Type 0 where
  pub reports : List Report
  pub exits : Bool

-- `served` is what `ListenAndServe` returns, and `is_closed` tells `http.ErrServerClosed`.
module _ (chi : Chi) (is_closed : String → Bool) where
  unfoldable pub start_server : Server chi → Option String → Served
  unfolding capture_error
  start_server s none = record { reports = []; exits = false }
  start_server s (some e) = elim (is_closed e) [
    | true ↦ record { reports = []; exits = false }
    | false ↦ record {
      reports = capture_error (some e) (("location", "http_server") ∷ ("port", s.port) ∷ []);
      exits = true;
    }
  ]
