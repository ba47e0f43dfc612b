-- ===== src/Script/Lines.antt =====
-- The lines that LogBackend writes.
use cybermp.Base.{ℕ, ◌≡◌, refl, List, [], ◌∷◌, ◌++◌, Bool, some, codes}
use cybermp.Session.{Session, SessionManager, find_player, count}
use cybermp.Script.{
  ScriptHost, each, visit, perform_all, perform, keep_backend, on_player_join, on_player_leave,
  emit,
}
use cybermp.Script.Log.{log_backend, log_join, join_line, leave_line}

abbrev pub info_line : List ℕ → List ℕ
info_line message = codes "[script:info] " ++ message

module _ (ntop : ℕ → List ℕ) where
  pub logs_join :
      (m : SessionManager) (id : ℕ) (s : Session) (b : Bool) (h : ScriptHost Bool)
      → h.backends ≡ b ∷ []
      → find_player id m ≡ some s
      → (on_player_join (log_backend ntop) m id h).log_lines
        ≡ h.log_lines ++ (info_line (join_line ntop s (count m)) ∷ [])
  unfolding on_player_join each visit perform_all perform keep_backend log_backend emit log_join
  logs_join m id s b h e f = rw (e, on_player_join, f) refl

  pub logs_leave :
      (m : SessionManager) (id : ℕ) (b : Bool) (h : ScriptHost Bool)
      → h.backends ≡ b ∷ []
      → (on_player_leave (log_backend ntop) m id h).log_lines
        ≡ h.log_lines ++ (info_line (leave_line id (count m)) ∷ [])
  unfolding on_player_leave each visit perform_all perform keep_backend log_backend emit
  logs_leave m id b h e = rw (e, on_player_leave) refl
