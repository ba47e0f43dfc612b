-- ===== src/Lua.antt =====
-- src/server/LuaBackend.cpp: the backend that runs Lua scripts. Lua and sol2 are a parameter: what a
-- script or a handler does is the list of its calls into the API, in order, and the error that ends
-- it, if one does. The players that it sees are the sessions of the moment. Names are sorted, not
-- whole paths, which differ in nothing else.
pub mod Loading
pub mod Firing
use cybermp.Base.{
  ℕ, ◌+◌, List, [], ◌∷◌, ◌++◌, Bool, true, false, ◌&&◌, ◌||◌, Option, none, some, length,
  if◌then◌else◌, codes, eq_bytes, find_if, any_of, update_if, filter_by, map, sort_texts,
  to_decimal,
}
use cybermp.Session.{SessionManager}
use cybermp.Script.{Request, info, warn, error, kick, Backend}

-- A value that a script passes, as sol2 tells them apart; `function` is what it takes for a
-- protected_function, and `other` goes with the name of its type.
pub data Value : Type 0 where
  text : List ℕ → Value
  number : ℕ → Value
  boolean : Bool → Value
  function : ℕ → Value
  other : List ℕ → Value

-- A call into the API: cybermp.log, warn and on, and the kick of a player's table.
pub data ApiCall : Type 0 where
  logs warns : Value → ApiCall
  registers : List ℕ → Value → ApiCall
  kicks : ℕ → Option (List ℕ) → ApiCall

pub record Ran (L : Type 0) : Type 0 where
  pub lua : L
  pub actions : List ApiCall
  pub failure : Option (List ℕ)

-- The interpreter: its libraries, a script file, a call of a handler, and how a number is printed.
pub record Lua (L : Type 0) : Type 0 where
  pub open_libraries : L → L
  pub run_file : List ℕ → SessionManager → L → Ran L
  pub call : ℕ → ℕ → SessionManager → L → Ran L
  pub format_double : ℕ → List ℕ

pub record Entry : Type 0 where
  pub name : List ℕ
  pub is_regular : Bool
  pub extension : List ℕ

-- `undefined` is set where a vector grows under the loop that goes through it.
pub record LuaBackend (L : Type 0) : Type 0 where
  pub lua : L
  pub handlers : List (List ℕ × List ℕ)
  pub undefined : Bool

abbrev pub is_event : List ℕ → List ℕ × List ℕ → Bool
is_event event entry = eq_bytes entry.0 event

unfoldable pub type_name : Value → List ℕ
type_name (text t) = codes "string"
type_name (number n) = codes "number"
type_name (boolean b) = codes "boolean"
type_name (function f) = codes "function"
type_name (other name) = name

abbrev pub not_a_function : List ℕ → Value → List ℕ
not_a_function event v =
    codes "cybermp.on('"
    ++ (event ++ (codes "'): second argument must be a function, got " ++ type_name v))

abbrev pub value_or : List ℕ → Option (List ℕ) → List ℕ
value_or d none = d
value_or d (some t) = t

abbrev held : Option (List ℕ × List ℕ) → List ℕ
held none = []
held (some e) = e.1

module _ {L : Type 0} where
  put_handler : List ℕ → ℕ → Option (List ℕ × List ℕ) → LuaBackend L → LuaBackend L
  put_handler event f none b = record b { handlers = b.handlers ++ ((event, f ∷ []) ∷ []) }
  put_handler event f (some e) b = record b {
    handlers = update_if (is_event event) (λ e. (e.0, e.1 ++ (f ∷ []))) b.handlers;
  }

  -- `m_handlers[aEvent].push_back(...)`.
  unfoldable pub register : List ℕ → ℕ → LuaBackend L → LuaBackend L
  unfolding put_handler
  register event f b = put_handler event f (find_if (is_event event) b.handlers) b

  unfoldable pub handlers_of : List ℕ → LuaBackend L → List ℕ
  handlers_of event b = held (find_if (is_event event) b.handlers)

abbrev pub failed : List ℕ → Option (List ℕ) → List Request
failed label none = []
failed label (some what) = error (label ++ (codes ": " ++ what)) ∷ []

outcome_of : List ℕ → Option (List ℕ) → Request
outcome_of file none = info (codes "loaded " ++ file)
outcome_of file (some what) = error (file ++ (codes ": " ++ what))

abbrev loads : Option (List ℕ) → ℕ
loads none = 1
loads (some what) = 0

abbrev pub is_script : Entry → Bool
is_script e = e.is_regular && eq_bytes e.extension (codes ".lua")

unfoldable pub scripts_in : List Entry → List (List ℕ)
scripts_in entries = sort_texts (map (λ e. e.name) (filter_by is_script entries))

abbrev pub summary : ℕ → ℕ → List ℕ
summary loaded files =
    to_decimal loaded ++ (codes " of " ++ (to_decimal files ++ codes " script(s) loaded"))

abbrev pub is_firing : List ℕ → Option (List ℕ) → Bool
is_firing event none = false
is_firing event (some e) = eq_bytes event e

module _ {L : Type 0} (X : Lua L) where
  unfoldable pub describe : Value → List ℕ
  describe (text t) = t
  describe (number n) = X.format_double n
  describe (boolean b) = if b then codes "true" else codes "false"
  describe (function f) = type_name (function f)
  describe (other name) = type_name (other name)

  -- `firing` is the event whose handlers are being called, if any are.
  registered : Option (List ℕ) → List ℕ → Value → LuaBackend L → LuaBackend L × List Request
  registered firing event (function f) b =
      (record (register event f b) { undefined = b.undefined || is_firing event firing }, [])
  registered firing event v b = (b, error (not_a_function event v) ∷ [])

  unfoldable pub act : Option (List ℕ) → ApiCall → LuaBackend L → LuaBackend L × List Request
  unfolding registered
  act firing (logs v) b = (b, info (describe v) ∷ [])
  act firing (warns v) b = (b, warn (describe v) ∷ [])
  act firing (registers event v) b = registered firing event v b
  act firing (kicks id reason) b = (b, kick id (value_or (codes "kicked by script") reason) ∷ [])

  unfoldable pub act_all :
      Option (List ℕ) → List ApiCall → LuaBackend L → LuaBackend L × List Request
  act_all firing [] b = (b, [])
  act_all firing (a ∷ rest) b =
      let (b', first) = act firing a b in
      let (b'', more) = act_all firing rest b' in (b'', first ++ more)

  -- The state of Lua after a run, and what the run did by its calls.
  unfoldable pub apply_run : Option (List ℕ) → Ran L → LuaBackend L → LuaBackend L × List Request
  apply_run firing r b = act_all firing r.actions (record b { lua = r.lua })

  -- One call of a handler: an error in it is logged.
  unfoldable pub call_handler :
      List ℕ → ℕ → SessionManager → ℕ → LuaBackend L → LuaBackend L × List Request
  call_handler event argument m h b =
      let r = X.call h argument m b.lua in
      let (b', requests) = apply_run (some event) r b in
      (b', requests ++ failed (event ++ codes " handler") r.failure)

  unfoldable pub call_all :
      List ℕ → ℕ → SessionManager → List ℕ → LuaBackend L → LuaBackend L × List Request
  call_all event argument m [] b = (b, [])
  call_all event argument m (h ∷ hs) b =
      let (b', first) = call_handler event argument m h b in
      let (b'', more) = call_all event argument m hs b' in (b'', first ++ more)

  unfoldable pub fire : List ℕ → ℕ → SessionManager → LuaBackend L → LuaBackend L × List Request
  fire event argument m b = call_all event argument m (handlers_of event b) b

  -- A tick is fired only where a script has asked for it.
  unfoldable pub tick : ℕ → SessionManager → LuaBackend L → LuaBackend L × List Request
  tick now m b =
      if any_of (is_event (codes "tick")) b.handlers then fire (codes "tick") now m b else (b, [])

  -- A file that is broken does not stop the others. The count is of those that ran to their end.
  unfoldable pub load_files :
      SessionManager → List (List ℕ) → LuaBackend L → ℕ × LuaBackend L × List Request
  unfolding outcome_of
  load_files m [] b = (0, b, [])
  load_files m (file ∷ files) b =
      let r = X.run_file file m b.lua in
      let (b', first) = apply_run none r b in
      let (loaded, b'', more) = load_files m files b' in
      (loads r.failure + loaded, b'', first ++ (outcome_of file r.failure ∷ more))

  unfoldable pub load_scripts :
      List ℕ
      → Option (List Entry)
      → SessionManager
      → LuaBackend L
      → Bool × LuaBackend L × List Request
  load_scripts directory none m b =
      (true, b, info (codes "no script directory at '" ++ (directory ++ codes "'")) ∷ [])
  load_scripts directory (some entries) m b =
      let files = scripts_in entries in
      let (loaded, b', requests) = load_files m files b in
      (true, b', requests ++ (info (summary loaded (length files)) ∷ []))

  -- Start, Stop, OnPlayerJoin, OnPlayerLeave and OnTick, with what is in the script directory.
  unfoldable pub lua_backend : List ℕ → Option (List Entry) → Backend (LuaBackend L)
  lua_backend directory entries = record {
    start = λ m b. load_scripts directory entries m (record b { lua = X.open_libraries b.lua });
    stop = λ b. (record b { handlers = [] }, []);
    on_player_join = λ m id b. fire (codes "playerJoin") id m b;
    on_player_leave = λ m id b. fire (codes "playerLeave") id m b;
    on_tick = λ m now b. tick now m b;
  }
