-- ===== src/Lua/Loading.antt =====
-- LuaBackend::LoadScripts, and Start.
use cybermp.Base.{
  ℕ, ◌≡◌, refl, ap, ◌∙◌, List, [], ◌∷◌, true, Option, none, some, length, filter_by, map,
  sort_texts-Perm, Bool-cases, inl, inr,
}
use Prim.Native.Nat.{suc}
use mathlib.Core.List.{Permᴰ}
use cybermp.Session.{SessionManager}
use cybermp.Script.{ScriptHost, start_all}
use cybermp.Script.Backends.{start_all_lem, starters}
use cybermp.Lua.{Entry, Lua, LuaBackend, lua_backend, load_scripts, scripts_in, is_script}

Permᴰ-refl : (xs : List (List ℕ)) → Permᴰ xs xs
Permᴰ-refl [] = Permᴰ.nil
Permᴰ-refl (x ∷ xs) = Permᴰ.cons refl (Permᴰ-refl xs)

scripts-Perm :
    (es fs : List Entry)
    → Permᴰ es fs
    → Permᴰ
        (map (λ e. e.name) (filter_by is_script es))
        (map (λ e. e.name) (filter_by is_script fs))
unfolding filter_by
scripts-Perm _ _ Permᴰ.nil = Permᴰ.nil
scripts-Perm _ _ (Permᴰ.cons {b = f} {l₁ = es} {l₂ = fs} e p) =
    rw e (elim (Bool-cases (is_script f)) [
      | inl t ↦ rw t (Permᴰ.cons refl (scripts-Perm es fs p))
      | inr t ↦ rw t (scripts-Perm es fs p)
    ])
scripts-Perm _ _ (Permᴰ.swap {a' = a} {b' = b} {l = l} e k) =
    rw (e, k)
      (elim (Bool-cases (is_script a)) [
        | inl s ↦ elim (Bool-cases (is_script b)) [
          | inl t ↦ rw (s, t) (Permᴰ.swap refl refl)
          | inr t ↦ rw (s, t) (Permᴰ-refl _)
        ]
        | inr s ↦ rw s (Permᴰ-refl _)
      ])
scripts-Perm es gs (Permᴰ.trans {l₂ = fs} p q) =
    Permᴰ.trans (scripts-Perm es fs p) (scripts-Perm fs gs q)

module _ {L : Type 0} (X : Lua L) (directory : List ℕ) (m : SessionManager) where
  -- Start does the same with the same files, in whatever order the directory lists them.
  pub load_order :
      (es fs : List Entry) (b : LuaBackend L)
      → Permᴰ es fs
      → (lua_backend X directory (some es)).start m b
        ≡ (lua_backend X directory (some fs)).start m b
  unfolding lua_backend load_scripts scripts_in
  load_order es fs b p =
      let same : scripts_in es ≡ scripts_in fs = sort_texts-Perm _ _ (scripts-Perm es fs p) in
      rw same refl

  start_succeeds :
      (entries : Option (List Entry)) (b : LuaBackend L)
      → ((lua_backend X directory entries).start m b).0 ≡ true
  unfolding lua_backend load_scripts
  start_succeeds none b = refl
  start_succeeds (some es) b = refl

  module _ (entries : Option (List Entry)) where
    all_start :
        (bs : List (LuaBackend L))
        → length (starters (lua_backend X directory entries) m bs) ≡ length bs
    unfolding lua_backend
    all_start [] = refl
    all_start (b ∷ bs) = rw (start_succeeds entries b) (ap suc (all_start bs))

    -- Lua backends all start, whatever becomes of their scripts: StartAll keeps every one and
    -- returns their number.
    pub lua_starts :
        (h : ScriptHost (LuaBackend L))
        → let r = start_all (lua_backend X directory entries) m h in
          (r.0 ≡ length h.backends) × (length r.1.backends ≡ length h.backends)
    lua_starts h =
        let (kept, number) = start_all_lem (lua_backend X directory entries) m h in
        (number ∙ all_start h.backends, ap (λ bs. length bs) kept ∙ all_start h.backends)
