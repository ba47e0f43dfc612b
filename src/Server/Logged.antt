-- ===== src/Server/Logged.antt =====
-- What a server with LogBackend writes to its log.
use cybermp.Base.{
  ℕ, ◌+◌, ◌-◌, ◌==◌, find_if, length-erase_if, ◌≡◌, ap, ◌∙◌, List, [], ◌∷◌, ◌++◌, Bool, some, arith,
}
use cybermp.Proto.Format.{decode}
use cybermp.Proto.Messages.{Hello, hello_format}
use cybermp.Session.{
  Endpoint, Session, SessionManager, JoinResult, accepted, join, find_player, count, new_session,
  remove,
}
use cybermp.Session.Invariant.{IsValid}
use cybermp.Session.Joining.{join_accepted}
use cybermp.Script.{on_player_leave}
use cybermp.Script.Log.{log_backend, join_line, leave_line}
use cybermp.Script.Lines.{info_line, logs_join, logs_leave}
use cybermp.Server.{Server, handle_hello, do_kick, announce_leave}
use cybermp.Proto.Messages.{notify_player_left_format}
use cybermp.Server.Broadcasts.{broadcast_lem}
use cybermp.Server.Hellos.{hello_accepted}

module _ (ntop : ℕ → List ℕ) (from : Endpoint) (bytes : List ℕ) (now : ℕ) (srv : Server Bool)
    (hello : Hello) (b : Bool) where
  abbrev joining : JoinResult × ℕ × SessionManager
  joining = join from hello.username hello.version now srv.sessions

  -- On a valid server whose one backend is the log backend, a hello that decodes and that Join
  -- accepts adds one line to the log: it gives the new player's number, name and address, and the
  -- number of sessions before it plus one.
  pub join_logged :
      IsValid srv.sessions
      → srv.scripts.backends ≡ b ∷ []
      → decode hello_format bytes ≡ some hello
      → joining.0 ≡ accepted
      → (handle_hello (log_backend ntop) from bytes now srv).scripts.log_lines
        ≡ srv.scripts.log_lines
          ++ (info_line (
                join_line ntop
                  (new_session joining.1 hello.username from now)
                  (count srv.sessions + 1))
              ∷ [])
  join_logged v e d j =
      let (unknown, unused, found, numbered, counted) =
        join_accepted srv.sessions from hello.username hello.version now v j in
      ap (λ s. s.scripts.log_lines) (hello_accepted (log_backend ntop) from bytes now srv hello d j)
      ∙ logs_join ntop joining.2 joining.1 _ b srv.scripts e numbered
      ∙ ap
          (λ (n : ℕ).
            srv.scripts.log_lines
            ++ (info_line (join_line ntop (new_session joining.1 hello.username from now) n) ∷ []))
          counted

count-remove :
    (id : ℕ) (s : Session) (m : SessionManager)
    → find_player id m ≡ some s
    → count (remove id m).1 ≡ count m - 1
unfolding count remove find_player
count-remove id s m e =
    let found : find_if (λ s. s.id == id) m.sessions ≡ some s = ground arith in
    rw (found, remove) (omega (arith, length-erase_if (λ s. s.id == id) m.sessions s found))

module _ (ntop : ℕ → List ℕ) (srv : Server Bool) (b : Bool) where
  scripts-announce_leave :
      (id : ℕ) (t : Server Bool)
      → (announce_leave (log_backend ntop) id t).scripts
        ≡ on_player_leave (log_backend ntop) t.sessions id t.scripts
  unfolding announce_leave
  scripts-announce_leave id t =
      ap (λ (u : Server Bool). on_player_leave (log_backend ntop) u.sessions id u.scripts)
        (broadcast_lem notify_player_left_format (record { player_id = id }) id t)

  -- On a server whose one backend is the log backend, a kick of a player that Find returns adds one
  -- line to the log, with the player's number and the number of sessions less one.
  pub kick_logged :
      (id : ℕ) (s : Session)
      → srv.scripts.backends ≡ b ∷ []
      → find_player id srv.sessions ≡ some s
      → (do_kick (log_backend ntop) id (some s) srv).scripts.log_lines
        ≡ srv.scripts.log_lines ++ (info_line (leave_line id (count srv.sessions - 1)) ∷ [])
  unfolding do_kick
  kick_logged id s e f =
      let left : Server Bool = record srv { sessions = (remove id srv.sessions).1 } in
      ap (λ h. h.log_lines) (scripts-announce_leave id left)
      ∙ logs_leave ntop left.sessions id b srv.scripts e
      ∙ ap (λ (n : ℕ). srv.scripts.log_lines ++ (info_line (leave_line id n) ∷ []))
          (count-remove id s srv.sessions f)
