-- ===== src/Artifacts.antt =====
-- src/service/artifacts.py: what is kept of a finished build, and the sweep of old ones. The file
-- system is the record `Files`; what it raises and the code does not catch is `none`.
use app_generation_microserv.Base.{
  ℕ, ◌+◌, ◌-◌, String, ◌==◌, Bool, false, not, ◌&&◌, ◌||◌, Option, none, some, List, [], ◌∷◌,
  if◌then◌else◌, leb,
}

pub record Files : Type 1 where
  pub S : Type 0
  pub is_dir : String → S → Bool
  pub is_file : String → S → Bool
  pub is_symlink : String → S → Bool
  pub exists : String → S → Bool
  pub resolve : String → S → String
  -- of two resolved paths
  pub is_relative_to : String → String → Bool
  pub name : String → String
  pub join : String → String → String
  pub iterdir : String → S → List String
  -- the sizes of all files under a directory, of those that can be read
  pub tree_size : String → S → ℕ
  -- seconds, or none where `stat` raises
  pub mtime : String → S → Option ℕ
  -- `Path.unlink()`, and `shutil.move`
  pub unlink : String → S → Option S
  pub move : String → String → S → Option S
  -- `unlink(missing_ok=True)` and `rmtree(ignore_errors=True)`, with what they leave if they fail
  pub discard : String → S → S
  pub rmtree : String → S → S

abbrev pub is_text : Option String → Bool
is_text none = false
is_text (some p) = not (p == "")

module _ (F : Files) where
  open F use {S, is_dir, is_file, is_symlink, exists, resolve, is_relative_to}

  -- `if kept.exists(): kept.unlink()`, and the move
  unfoldable pub moved : Option S → String → String → Option S
  moved none source kept = none
  moved (some s) source kept = F.move source kept s

  unfoldable pub relocated : String → String → S → Option S
  unfolding moved
  relocated source kept s =
      if resolve kept s == resolve source s
      then some s
      else moved (if exists kept s then F.unlink kept s else some s) source kept

  abbrev pub kept_after : String → Option S → Option (Option String × S)
  kept_after kept none = none
  kept_after kept (some s) = some (some kept, s)

  -- the file to keep, after the relocation
  unfoldable pub set_aside : String → Option String → S → Option (Option String × S)
  unfolding relocated
  set_aside build_dir none s = some (none, s)
  set_aside build_dir (some source) s =
      let inside = is_relative_to (resolve source s) (resolve build_dir s) in
      let kept = F.join build_dir (F.name source) in
      if source == ""
      then some (none, s)
      else if not (is_file source s)
      then some (none, s)
      else if inside
      then kept_after kept (relocated source kept s)
      else some (some source, s)

  abbrev pub is_kept : Option String → String → S → Bool
  is_kept none entry s = false
  is_kept (some kept) entry s = resolve entry s == resolve kept s

  unfoldable pub remove : String → S → S
  remove entry s =
      if is_dir entry s && not (is_symlink entry s) then F.rmtree entry s else F.discard entry s

  -- the loop over the entries
  unfoldable pub clear : Option String → List String → S → S
  unfolding remove
  clear kept [] s = s
  clear kept (entry ∷ entries) s =
      clear kept entries (if is_kept kept entry s then s else remove entry s)

  abbrev pub cleared : String → Option (Option String × S) → Option (Option String × S)
  cleared build_dir none = none
  cleared build_dir (some (kept, s)) = some (kept, clear kept (F.iterdir build_dir s) s)

  unfoldable pub keep_only_the_artifact : String → Option String → S → Option (Option String × S)
  unfolding set_aside clear
  keep_only_the_artifact build_dir apk_path s =
      if not (is_dir build_dir s)
      then some (apk_path, s)
      else cleared build_dir (set_aside build_dir apk_path s)

  -- `mtime < cutoff`, for a directory that can be read
  unfoldable pub is_expired : ℕ → Option ℕ → Bool
  is_expired cutoff none = false
  is_expired cutoff (some mtime) = not (leb cutoff mtime)

  unfoldable pub sweep_one : ℕ → String → S → ℕ × S
  unfolding is_expired
  sweep_one cutoff entry s =
      let s' = F.rmtree entry s in
      if not (is_dir entry s) || is_symlink entry s || not (is_expired cutoff (F.mtime entry s))
      then (0, s)
      else (if exists entry s' then 0 else F.tree_size entry s, s')

  unfoldable pub sweep_loop : ℕ → List String → S → ℕ × S
  unfolding sweep_one
  sweep_loop cutoff [] s = (0, s)
  sweep_loop cutoff (entry ∷ entries) s =
      let (freed, s') = sweep_one cutoff entry s in
      let (more, s'') = sweep_loop cutoff entries s' in (freed + more, s'')

  -- The cutoff of a clock below the retention is 0, which nothing is older than.
  unfoldable pub sweep_expired : ℕ → String → ℕ → S → ℕ × S
  unfolding sweep_loop
  sweep_expired now build_root retention_seconds s =
      if not (is_dir build_root s)
      then (0, s)
      else sweep_loop (now - retention_seconds) (F.iterdir build_root s) s
