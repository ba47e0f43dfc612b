-- ===== src/Script/Log.antt =====
-- LogBackend of src/server/ScriptHost.cpp: a backend that writes joins and leaves to the log. What
-- inet_ntop prints for an address is a parameter. The state is whether Start has set the host.
use cybermp.Base.{
  ℕ, List, [], ◌∷◌, ◌++◌, Bool, true, Option, none, some, codes, to_decimal, if◌then◌else◌,
}
use cybermp.Session.{Session, SessionManager, find_player, count, endpoint_text}
use cybermp.Script.{Request, info, Backend}

unfoldable pub join_line : (ℕ → List ℕ) → Session → ℕ → List ℕ
join_line ntop s online =
    codes "join #"
    ++ (to_decimal s.id
        ++ (codes " '"
            ++ (s.username
                ++ (codes "' from "
                    ++ (endpoint_text ntop s.endpoint
                        ++ (codes ", " ++ (to_decimal online ++ codes " online")))))))

unfoldable pub leave_line : ℕ → ℕ → List ℕ
leave_line id online =
    codes "leave #" ++ (to_decimal id ++ (codes ", " ++ (to_decimal online ++ codes " online")))

unfoldable pub log_join : (ℕ → List ℕ) → SessionManager → Option Session → List Request
log_join ntop m none = []
log_join ntop m (some s) = info (join_line ntop s (count m)) ∷ []

unfoldable pub log_backend : (ℕ → List ℕ) → Backend Bool
unfolding log_join
log_backend ntop = record {
  start = λ m b. (true, true, info (codes "log backend started") ∷ []);
  stop = λ b. (b, if b then info (codes "log backend stopped") ∷ [] else []);
  on_player_join = λ m id b. (b, log_join ntop m (find_player id m));
  on_player_leave = λ m id b. (b, info (leave_line id (count m)) ∷ []);
  on_tick = λ m now b. (b, []);
}
