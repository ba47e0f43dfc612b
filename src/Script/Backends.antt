-- ===== src/Script/Backends.antt =====
-- ScriptHost::StartAll.
use cybermp.Base.{
  ◌≡◌, sym, ap, ◌∙◌, List, [], ◌∷◌, ◌++◌, Bool, true, false, length, append_assoc, append-nil,
}
use cybermp.Session.{SessionManager}
use cybermp.Script.{Request, Backend, ScriptHost, keep_backend, started, start_each, start_all}
use cybermp.Script.Kicks.{backends-perform_all}

module _ {B : Type 0} (api : Backend B) (m : SessionManager) where
  -- The states of those that started.
  abbrev kept : Bool × B × List Request → List B
  kept (true, b, rs) = b ∷ []
  kept (false, b, rs) = []

  abbrev pub starters : List B → List B
  starters [] = []
  starters (b ∷ bs) = kept (api.start m b) ++ starters bs

  backends-started :
      (o : Bool × B × List Request) (h : ScriptHost B)
      → (started api m o h).backends ≡ h.backends ++ kept o
  unfolding started keep_backend
  backends-started (true, b, rs) h = ap (λ bs. bs ++ (b ∷ [])) (backends-perform_all m rs h)
  backends-started (false, b, rs) h = backends-perform_all m rs h ∙ sym (append-nil h.backends)

  backends-start_each :
      (bs : List B) (h : ScriptHost B)
      → (start_each api m bs h).backends ≡ h.backends ++ starters bs
  unfolding start_each
  backends-start_each [] h = sym (append-nil h.backends)
  backends-start_each (b ∷ bs) h =
      backends-start_each bs (started api m (api.start m b) h)
      ∙ ap (λ xs. xs ++ starters bs) (backends-started (api.start m b) h)
      ∙ append_assoc h.backends (kept (api.start m b)) (starters bs)

  -- StartAll leaves the backends whose start succeeded, as it left them and in their order, and
  -- returns their number.
  pub start_all_lem :
      (h : ScriptHost B)
      → ((start_all api m h).1.backends ≡ starters h.backends)
        × ((start_all api m h).0 ≡ length (starters h.backends))
  unfolding start_all
  start_all_lem h =
      let left = backends-start_each h.backends (record h { backends = [] }) in
      (left, ap (λ bs. length bs) left)
