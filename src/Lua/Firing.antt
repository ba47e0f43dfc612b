-- ===== src/Lua/Firing.antt =====
-- LuaBackend::Fire.
use cybermp.Base.{
  ℕ, ◌≡◌, refl, sym, ap, ◌∙◌, List, [], ◌∷◌, ◌++◌, Bool, false, ◌||◌, Option, none, some, length,
  any_of, find_if, eq_bytes, codes,
}
use Prim.Native.Nat.{suc}
use mathlib.Core.Bool.{or-false, or_assoc}
use cybermp.Session.{SessionManager}
use cybermp.Script.{Request, info, warn, error, kick}
use cybermp.Lua.{
  text, number, boolean, function, other, ApiCall, logs, warns, registers, kicks, Ran, Lua,
  LuaBackend, describe, not_a_function, value_or, registered, register, act, act_all, apply_run,
  failed, call_handler, call_all, fire, handlers_of, put_handler, is_event,
}

-- A handler is added for the event.
abbrev pub adds : List ℕ → ApiCall → Bool
adds event (registers e (function f)) = eq_bytes e event
adds event _ = false

module _ {L : Type 0} (X : Lua L) where
  -- What a call into the API asks of the host.
  abbrev pub asks : ApiCall → List Request
  asks (logs v) = info (describe X v) ∷ []
  asks (warns v) = warn (describe X v) ∷ []
  asks (registers e (function f)) = []
  asks (registers e (text t)) = error (not_a_function e (text t)) ∷ []
  asks (registers e (number n)) = error (not_a_function e (number n)) ∷ []
  asks (registers e (boolean b)) = error (not_a_function e (boolean b)) ∷ []
  asks (registers e (other name)) = error (not_a_function e (other name)) ∷ []
  asks (kicks id reason) = kick id (value_or (codes "kicked by script") reason) ∷ []

  abbrev pub asks_all : List ApiCall → List Request
  asks_all [] = []
  asks_all (a ∷ rest) = asks a ++ asks_all rest

  lua-register :
      (event : List ℕ) (f : ℕ) (o : Option (List ℕ × List ℕ)) (b : LuaBackend L)
      → ((put_handler event f o b).lua ≡ b.lua)
        × ((put_handler event f o b).undefined ≡ b.undefined)
  unfolding put_handler
  lua-register event f none b = (refl, refl)
  lua-register event f (some e) b = (refl, refl)

  module _ (event : List ℕ) where
    act_lem :
        (a : ApiCall) (b : LuaBackend L)
        → let r = act X (some event) a b in
          (r.0.lua ≡ b.lua) × (r.0.undefined ≡ b.undefined || adds event a) × (r.1 ≡ asks a)
    unfolding act registered register
    act_lem (logs v) b = (refl, sym (or-false b.undefined), refl)
    act_lem (warns v) b = (refl, sym (or-false b.undefined), refl)
    act_lem (registers e (function f)) b =
        ((lua-register e f (find_if (is_event e) b.handlers) b).0, refl, refl)
    act_lem (registers e (text t)) b = (refl, sym (or-false b.undefined), refl)
    act_lem (registers e (number n)) b = (refl, sym (or-false b.undefined), refl)
    act_lem (registers e (boolean c)) b = (refl, sym (or-false b.undefined), refl)
    act_lem (registers e (other name)) b = (refl, sym (or-false b.undefined), refl)
    act_lem (kicks id reason) b = (refl, sym (or-false b.undefined), refl)

    act_all_lem :
        (calls : List ApiCall) (b : LuaBackend L)
        → let r = act_all X (some event) calls b in
          (r.0.lua ≡ b.lua)
          × (r.0.undefined ≡ b.undefined || any_of (adds event) calls)
          × (r.1 ≡ asks_all calls)
    unfolding act_all any_of
    act_all_lem [] b = (refl, sym (or-false b.undefined), refl)
    act_all_lem (a ∷ rest) b =
        let one = act_lem a b in
        let more = act_all_lem rest (act X (some event) a b).0 in
        (
          more.0 ∙ one.0,
          more.1
              ∙ ap (λ u. u || any_of (adds event) rest) one.1
              ∙ or_assoc b.undefined (adds event a) (any_of (adds event) rest),
          rw (one.2, more.2) refl,
        )

    module _ (argument : ℕ) (m : SessionManager) where
      -- The calls of these handlers, one after the other, whatever becomes of each.
      abbrev pub runs : List ℕ → L → List (Ran L)
      runs [] lua = []
      runs (h ∷ hs) lua = let r = X.call h argument m lua in r ∷ runs hs r.lua

      abbrev pub grows : Ran L → Bool
      grows r = any_of (adds event) r.actions

      -- What a call asks of the host, and the line for its error.
      abbrev pub reports : Ran L → List Request
      reports r = asks_all r.actions ++ failed (event ++ codes " handler") r.failure

      abbrev pub reports_all : List (Ran L) → List Request
      reports_all [] = []
      reports_all (r ∷ rs) = reports r ++ reports_all rs

      call_handler_lem :
          (h : ℕ) (b : LuaBackend L)
          → let r = X.call h argument m b.lua in
            let o = call_handler X event argument m h b in
            (o.0.lua ≡ r.lua) × (o.0.undefined ≡ b.undefined || grows r) × (o.1 ≡ reports r)
      unfolding call_handler apply_run
      call_handler_lem h b =
          let r = X.call h argument m b.lua in
          let (lua, undefined, requests) = act_all_lem r.actions (record b { lua = r.lua }) in
          (lua, undefined, ap (λ rs. rs ++ failed (event ++ codes " handler") r.failure) requests)

      call_all_lem :
          (hs : List ℕ) (b : LuaBackend L)
          → let rs = runs hs b.lua in
            let o = call_all X event argument m hs b in
            (length rs ≡ length hs)
            × (o.1 ≡ reports_all rs)
            × (o.0.undefined ≡ b.undefined || any_of grows rs)
      unfolding call_all any_of
      call_all_lem [] b = (refl, refl, sym (or-false b.undefined))
      call_all_lem (h ∷ hs) b =
          let (lua, undefined, requests) = call_handler_lem h b in
          let later = call_all_lem hs (call_handler X event argument m h b).0 in
          let (all, told, left) = rw lua at later in
          let rs = runs hs (X.call h argument m b.lua).lua in
          (
            ap suc all,
            rw (requests, told) refl,
            left
                ∙ ap (λ u. u || any_of grows rs) undefined
                ∙ or_assoc b.undefined (grows (X.call h argument m b.lua)) (any_of grows rs),
          )

      -- Firing an event calls each handler of it once, in their order, whatever becomes of the
      -- others; it asks of the host what each of them asks, with one line for each error; and the
      -- standard leaves its behaviour open, if it was not before, exactly if one of these calls
      -- registers another handler for the same event, where the vector grows under the loop.
      pub fire_lem :
          (b : LuaBackend L)
          → let hs = handlers_of event b in
            let rs = runs hs b.lua in
            let o = fire X event argument m b in
            (length rs ≡ length hs)
            × (o.1 ≡ reports_all rs)
            × (o.0.undefined ≡ b.undefined || any_of grows rs)
      unfolding fire
      fire_lem b = call_all_lem (handlers_of event b) b
