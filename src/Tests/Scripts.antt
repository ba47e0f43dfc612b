-- ===== src/Tests/Scripts.antt =====
-- Examples for src/server/LuaBackend.cpp, the log backend and the start of src/server/main.cpp.
use cybermp.Base.{
  ℕ, ◌+◌, ◌-◌, ◌≡◌, refl, List, [], ◌∷◌, ◌++◌, Bool, true, false, ◌||◌, Option, none, some, length,
  any_of, codes, ◌==◌,
}
use mathlib.Core.List.{Permᴰ}
use cybermp.Proto.Format.{decode}
use cybermp.Proto.Messages.{hello_format}
use cybermp.Proto.Lawful.Names.{hello_lawful}
use cybermp.Proto.RoundTrip.{decode-written}
use cybermp.Session.{Session, accepted, join, new_session, find_player, count, find_endpoint}
use cybermp.Script.{ScriptHost}
use cybermp.Script.Log.{join_line}
use cybermp.Lua.{
  Value, function, text, ApiCall, logs, registers, Ran, Lua, LuaBackend, Entry, fire, lua_backend,
  handlers_of,
}
use cybermp.Lua.Firing.{fire_lem, runs, grows, reports_all}
use cybermp.Lua.Loading.{load_order}
use cybermp.Server.{Server}
use cybermp.Server.Startup.{server_options, start_server, Sound, startup_lem}
use cybermp.Tests.{
  carol, alice_session, two_players, hello_message, hello_bytes, hello_message-HelloFits,
}
use cybermp.Tests.Sockets.{machine_calls, machine-Holding, machine}

-- Handler 1 logs and fails; any other registers itself again. A script does what handler 1 does.
abbrev calls_of : Bool → ℕ → Ran ℕ
calls_of true lua = record {
  lua = lua + 1;
  actions = logs (text (codes "hi")) ∷ [];
  failure = some (codes "oops");
}
calls_of false lua = record {
  lua = lua + 1;
  actions = registers (codes "playerJoin") (function 2) ∷ [];
  failure = none;
}

abbrev toy : Lua ℕ
toy = record {
  open_libraries = λ lua. lua;
  run_file = λ file m lua. calls_of true lua;
  call = λ h argument m lua. calls_of (h == 1) lua;
  format_double = λ n. codes "1.5";
}

abbrev loaded : LuaBackend ℕ
loaded = record { lua = 0; handlers = (codes "playerJoin", 1 ∷ 2 ∷ []) ∷ []; undefined = false }

fire_example :
    let hs = handlers_of (codes "playerJoin") loaded in
    let rs = runs toy (codes "playerJoin") 3 two_players hs 0 in
    let o = fire toy (codes "playerJoin") 3 two_players loaded in
    (length rs ≡ length hs)
    × (o.1 ≡ reports_all toy (codes "playerJoin") 3 two_players rs)
    × (o.0.undefined ≡ false || any_of (grows toy (codes "playerJoin") 3 two_players) rs)
fire_example = fire_lem toy (codes "playerJoin") 3 two_players loaded

-- The second handler registers another one, and the loop is undefined.
fire_undefined : (fire toy (codes "playerJoin") 3 two_players loaded).0.undefined ≡ true
unfolding fire cybermp.Lua.call_all handlers_of cybermp.Base.find_if cybermp.Base.eq_bytes
    cybermp.Lua.call_handler cybermp.Lua.apply_run cybermp.Lua.act_all cybermp.Lua.act
fire_undefined = refl

abbrev chat : Entry
chat = record { name = codes "chat.lua"; is_regular = true; extension = codes ".lua" }

abbrev readme : Entry
readme = record { name = codes "a.txt"; is_regular = true; extension = codes ".txt" }

load_order_example :
    (lua_backend toy (codes "scripts") (some (chat ∷ readme ∷ []))).start two_players loaded
    ≡ (lua_backend toy (codes "scripts") (some (readme ∷ chat ∷ []))).start two_players loaded
load_order_example =
    load_order toy (codes "scripts") two_players (chat ∷ readme ∷ []) (readme ∷ chat ∷ []) loaded
      (Permᴰ.swap refl refl)

abbrev lua_host : ScriptHost (LuaBackend ℕ)
lua_host = record { backends = loaded ∷ []; kicks = []; log_lines = [] }

startup_example :
    Sound machine_calls toy 0 none
      (server_options [])
      (λ m. m.handles)
      machine-Holding
      machine
      (start_server machine_calls toy 0 none (server_options []) machine)
startup_example =
    startup_lem machine_calls toy 0 none (server_options []) (λ m. m.handles) machine-Holding
      machine

abbrev ntop : ℕ → List ℕ
ntop address = codes "127.0.0.1"

abbrev log_server : Server Bool
log_server = record {
  sessions = two_players;
  scripts = record { backends = true ∷ []; kicks = []; log_lines = [] };
  sent = [];
  rejected = 0;
}

hello_decoded : decode hello_format hello_bytes ≡ some hello_message
hello_decoded = decode-written hello_lawful hello_message hello_message-HelloFits

carol_in : (join carol (codes "carol") 2 5 two_players).0 ≡ accepted
unfolding join find_endpoint cybermp.Base.find_if cybermp.Session.eq_endpoint cybermp.Base.any_of
    cybermp.Base.eq_bytes
carol_in = refl

joined_text :
    join_line ntop (new_session 3 (codes "carol") carol 5) 3
    ≡ codes "join #3 'carol' from 127.0.0.1:5003, 3 online"
unfolding join_line cybermp.Session.endpoint_text cybermp.Base.to_decimal
joined_text = refl

alice_found : find_player 1 two_players ≡ some alice_session
unfolding find_player cybermp.Base.find_if
alice_found = refl
