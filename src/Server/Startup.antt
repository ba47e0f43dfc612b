-- ===== src/Server/Startup.antt =====
-- The start of main in src/server/main.cpp: its arguments, winsock, the socket, the sessions and the
-- Lua backend. Lines that are printed are left out.
use cybermp.Base.{
  ℕ, ◌≡◌, refl, ◌∙◌, List, [], ◌∷◌, Bool, true, false, Option, some, length, codes, argument,
  or_else, atoi, to_unsigned,
}
use cybermp.Session.{new_manager}
use cybermp.Session.Invariant.{IsValid, new_manager-IsValid}
use cybermp.Script.{new_host, add, start_all}
use cybermp.Lua.{Lua, LuaBackend, Entry, lua_backend}
use cybermp.Lua.Loading.{lua_starts}
use cybermp.Socket.{Winsock, UdpSocket, closed_socket, startup, shutdown, bind, close}
use cybermp.Socket.Handles.{Holding, Holds, bind-Holds, close-Holds, bound_is_open}
use cybermp.Server.{Server}

abbrev default_port : ℕ
default_port = 11780

abbrev max_players : ℕ
max_players = 32

abbrev timeout_ms : ℕ
timeout_ms = 10000

pub record ServerOptions : Type 0 where
  pub port : ℕ
  pub script_dir : List ℕ

unfoldable pub server_options : List (List ℕ) → ServerOptions
server_options args = record {
  port = or_else default_port (λ a. to_unsigned 16 (atoi a)) (argument 1 args);
  script_dir = or_else (codes "scripts") (λ a. a) (argument 2 args);
}

-- What comes before the loop: main returns with a code, or the server runs.
pub data Started (S L : Type 0) : Type 0 where
  exits : ℕ → S → Started S L
  runs : UdpSocket → Server (LuaBackend L) → S → Started S L

module _ {S L : Type 0} (W : Winsock S) (X : Lua L) (new_state : L) (entries : Option (List Entry))
    (o : ServerOptions) where
  abbrev new_lua : LuaBackend L
  new_lua = record { lua = new_state; handlers = []; undefined = false }

  unfoldable pub new_server : Server (LuaBackend L)
  new_server =
      let m = new_manager max_players timeout_ms in
      record {
        sessions = m;
        scripts =
            (start_all (lua_backend X o.script_dir entries) m (add (some new_lua) new_host)).1;
        sent = [];
        rejected = 0;
      }

  bound : Bool × UdpSocket × S → Started S L
  bound (false, u, s) = exits 1 (shutdown W true (close W u s).1)
  bound (true, u, s) = runs u new_server s

  begun : Bool × S → Started S L
  unfolding bound
  begun (false, s) = exits 1 (shutdown W false s)
  begun (true, s) = bound (bind W o.port closed_socket s)

  unfoldable pub start_server : S → Started S L
  unfolding begun
  start_server s = begun (startup W s)

  module _ (held : S → List ℕ) (k : Holding W held) where
    -- Either main leaves with 1 and the process holds the handles that it held before, or the
    -- server runs with an open socket beside these, no sessions, and its one backend.
    abbrev pub Sound : S → Started S L → Type 0
    Sound s (exits code s') = (code ≡ 1) × (held s' ≡ held s)
    Sound s (runs u srv s') =
        (u.is_open ≡ true)
        × (held s' ≡ u.handle ∷ held s)
        × IsValid srv.sessions
        × (srv.sessions.sessions ≡ [])
        × (length srv.scripts.backends ≡ 1)

    shutdown-held : (b : Bool) (s : S) → held (shutdown W b s) ≡ held s
    unfolding shutdown
    shutdown-held true s = k.ended s
    shutdown-held false s = refl

    one_backend : length new_server.scripts.backends ≡ 1
    unfolding new_server add
    one_backend =
        (lua_starts X o.script_dir (new_manager max_players timeout_ms) entries
          (record { backends = new_lua ∷ []; kicks = []; log_lines = [] })).1

    bound-Sound :
        (s : S) (r : Bool × UdpSocket × S)
        → Holds W held k (held s) r.1 r.2
        → (r.0 ≡ true → r.1.is_open ≡ true)
        → Sound s (bound r)
    unfolding bound
    bound-Sound s (false, u, s') h up =
        (refl, shutdown-held true _ ∙ (close-Holds W held k (held s) u.handle u.is_open s' h).1)
    bound-Sound s (true, u, s') h up =
        let alive : u.is_open ≡ true = up refl in
        (
          alive,
          h ∙ rw alive refl,
          unfold new_server in new_manager-IsValid max_players timeout_ms,
          unfold new_server new_manager in refl,
          one_backend,
        )

    begun-Sound : (s : S) (r : Bool × S) → held r.1 ≡ held s → Sound s (begun r)
    unfolding begun
    begun-Sound s (false, s') h = (refl, shutdown-held false s' ∙ h)
    begun-Sound s (true, s') h =
        bound-Sound s (bind W o.port closed_socket s')
          (bind-Holds W held k (held s) o.port 0 false s' h) (bound_is_open W o.port 0 false s')

    -- If winsock keeps account of handles as Holding says, main before its loop either leaves with
    -- 1, and the process holds the handles that it held before; or the server runs, with an open
    -- socket whose handle the process holds beside these, with valid and no sessions, and with one
    -- backend.
    pub startup_lem : (s : S) → Sound s (start_server s)
    unfolding start_server startup
    startup_lem s = begun-Sound s (startup W s) (k.begun s)
